-- ===== src/Listener.antt =====
-- listener.go: the listener, a socket of its own event loop, which accepts connections.
pub mod Creation
use Prim.Native.String.{String}
use gev.Base.{ℕ, Bool, not, Option, none, some, if◌then◌else◌}
use gev.Deps.{Deps, Errno, Result, ok, err, Sockaddr}
use gev.EventLoop
use gev.EventLoop.{EventLoop}
use gev.Poller.{event_read, has}
use gev.Connection.{Task}

-- The package net, go-reuseport, and the system calls of a listener.
pub record Net (Os : Type 0) : Type 1 where
  pub NetListener : Type 0
  pub reuseport_listen : String → String → Os → Result NetListener × Os
  pub listen : String → String → Os → Result NetListener × Os
  -- The assertion `ls.(*net.TCPListener)`.
  pub is_tcp : NetListener → Bool
  -- `File` with the `Fd` of the file.
  pub file_fd : NetListener → Os → Result ℕ × Os
  pub set_nonblock : ℕ → Os → Option Errno × Os
  pub accept : ℕ → Os → Result (ℕ × Sockaddr String) × Os
  pub close_listener : NetListener → Os → Option Errno × Os

pub data ListenError : Type 0 where
  listen_errno : Errno → ListenError
  no_descriptor : ListenError

-- Go's `(value, error)`.
pub data Listened (A : Type 0) : Type 0 where
  listening : A → Listened A
  failed : ListenError → Listened A

module _ (D : Deps) (N : Net D.Os) where
  open D use {Os}

  pub record Listener : Type 0 where
    pub fd : ℕ
    pub net_listener : N.NetListener
    -- The listener is socket 0 of this loop.
    pub loop : EventLoop ℕ (Task D)

  register_listener :
      ℕ → N.NetListener → Result (EventLoop ℕ (Task D)) × Os → Option (Listened Listener × Os)
  register_listener fd ls (err e, os) = some (failed (listen_errno e), os)
  register_listener fd ls (ok loop, os) =
      elim (EventLoop.add_socket_and_enable_read D fd 0 loop os) [
        | none ↦ none
        | some (none, l, os') ↦
            some (listening (record { fd = fd; net_listener = ls; loop = l }), os')
        | some (some e, l, os') ↦ some (failed (listen_errno e), os')
      ]

  prepare_fd : N.NetListener → Result ℕ × Os → Option (Listened Listener × Os)
  prepare_fd ls (err e, os) = some (failed (listen_errno e), os)
  prepare_fd ls (ok fd, os) =
      let (e, os1) = N.set_nonblock fd os in
      elim e [
        | some n ↦ some (failed (listen_errno n), os1)
        | none ↦ register_listener fd ls (EventLoop.new D os1)
      ]

  prepare_listener : Result N.NetListener × Os → Option (Listened Listener × Os)
  prepare_listener (err e, os) = some (failed (listen_errno e), os)
  prepare_listener (ok ls, os) =
      if not (N.is_tcp ls) then some (failed no_descriptor, os) else prepare_fd ls (N.file_fd ls os)

  unfoldable pub new_listener : String → String → Bool → Os → Option (Listened Listener × Os)
  unfolding prepare_listener prepare_fd register_listener
  new_listener network addr reuse_port os =
      prepare_listener
        (if reuse_port then N.reuseport_listen network addr os else N.listen network addr os)

  -- The accepted connection goes to `handle_conn`; errors are only logged.
  module _ {W : Type 0} (get_os : W → Os) (put_os : Os → W → W)
      (handle_conn : ℕ → Sockaddr String → W → Option W) where
    accepted : Result (ℕ × Sockaddr String) × Os → W → Option W
    accepted (err e, os) w = some (put_os os w)
    accepted (ok (nfd, sa), os) w =
        let (e, os1) = N.set_nonblock nfd os in
        elim e [
          | some n ↦ some (put_os (D.close_fd nfd os1).1 w)
          | none ↦ handle_conn nfd sa (put_os os1 w)
        ]

    unfoldable pub listener_handle_event : ℕ → ℕ → W → Option W
    unfolding accepted
    listener_handle_event fd events w =
        if has events event_read then accepted (N.accept fd (get_os w)) w else some w

  unfoldable pub listener_close : Listener → Os → Option Errno × Os
  listener_close l os = N.close_listener l.net_listener os
