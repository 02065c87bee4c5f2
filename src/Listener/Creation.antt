-- ===== src/Listener/Creation.antt =====
-- listener.go: `newListener` with every outcome of what it calls.
use Prim.Native.String.{String}
use gev.Base.{
  lookup, ℕ, ◌≡◌, refl, Bool, [], Option, none, some, Bool-cases, Option-cases, inl, inr,
  if◌then◌else◌,
}
use gev.Deps.{Deps, Errno, Result, ok, err}
use gev.EventLoop
use gev.EventLoop.{EventLoop}
use gev.EventLoop.Laws.{IsCounted, new-IsCounted, add_socket-IsCounted}
use gev.Connection.{Task}
use gev.Listener.{
  Net, Listener, Listened, new_listener, prepare_listener, prepare_fd, register_listener,
}

module _ (D : Deps) (N : Net D.Os) where
  Ended : Option (Listened (Listener D N) × D.Os) → Type 0
  Ended r = (x : Listened (Listener D N) × D.Os) × (r ≡ some x)

  registered :
      (fd : ℕ) (ls : N.NetListener) (e : Option Errno) (l : EventLoop ℕ (Task D))
      (loop : EventLoop ℕ (Task D)) (os os' : D.Os)
      → EventLoop.add_socket_and_enable_read D fd 0 loop os ≡ some (e, l, os')
      → Ended (register_listener D N fd ls (ok loop, os))
  unfolding register_listener Ended
  registered fd ls none l loop os os' h = rw (h, register_listener) (_, refl)
  registered fd ls (some e) l loop os os' h = rw (h, register_listener) (_, refl)

  register_listener_runs :
      (fd : ℕ) (ls : N.NetListener) (r : Result (EventLoop ℕ (Task D)) × D.Os)
      → ((l : EventLoop ℕ (Task D)) → r.0 ≡ ok l → IsCounted l [])
      → Ended (register_listener D N fd ls r)
  unfolding register_listener Ended lookup
  register_listener_runs fd ls (err e, os) h = (_, refl)
  register_listener_runs fd ls (ok loop, os) h =
      let (e, l, os', added, after) = add_socket-IsCounted D fd 0 loop [] os (h loop refl) refl in
      registered fd ls e l loop os os' added

  prepare_fd_runs : (ls : N.NetListener) (r : Result ℕ × D.Os) → Ended (prepare_fd D N ls r)
  unfolding prepare_fd Ended
  prepare_fd_runs ls (err e, os) = (_, refl)
  prepare_fd_runs ls (ok fd, os) = elim (Option-cases (N.set_nonblock fd os).0) [
    | inr (e, bad) ↦ rw (bad, prepare_fd) (_, refl)
    | inl fine ↦
        let os1 = (N.set_nonblock fd os).1 in
        rw (fine, prepare_fd)
          (register_listener_runs fd ls (EventLoop.new D os1) (λ l h. new-IsCounted D l os1 h))
  ]

  prepare_listener_runs : (r : Result N.NetListener × D.Os) → Ended (prepare_listener D N r)
  unfolding prepare_listener Ended
  prepare_listener_runs (err e, os) = (_, refl)
  prepare_listener_runs (ok ls, os) = elim (Bool-cases (N.is_tcp ls)) [
    | inr other ↦ rw (other, prepare_listener) (_, refl)
    | inl tcp ↦ rw (tcp, prepare_listener) (prepare_fd_runs ls (N.file_fd ls os))
  ]

  -- `newListener` never panics: its loop is new where the listener is registered with it.
  pub new_listener_runs :
      (network addr : String) (reuse_port : Bool) (os : D.Os)
      → (x : Listened (Listener D N) × D.Os) × (new_listener D N network addr reuse_port os
          ≡ some x)
  unfolding new_listener Ended
  new_listener_runs network addr reuse_port os =
      prepare_listener_runs
        (if reuse_port then N.reuseport_listen network addr os else N.listen network addr os)
