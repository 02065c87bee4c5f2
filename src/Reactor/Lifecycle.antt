-- ===== src/Reactor/Lifecycle.antt =====
-- connection.go with eventloop/eventloop.go: the end of a connection, and of a loop, as the loop sees it.
use gev.Base.{
  ℕ, ◌≡◌, refl, ap, ◌∙◌, true, false, List, Option, none, some, arith, ==_refl, lookup-erase,
}
use gev.Deps.{Deps}
use gev.EventLoop
use gev.EventLoop.{EventLoop, find_socket, delete_socket}
use gev.Protocol.{Protocol}
use gev.Connection.{Handler, close_task, open_task, stop_task}
use gev.Connection.Close.{handle_close}
use gev.Connection.Close.Once.{handle_close_lem, run_callback-Keeps}
use gev.Reactor.{World, focus, unfocus, run_task, loop_event, open_connection, stop_sockets}

module _ (D : Deps) (H : Handler D) (P : Protocol D) where
  find-delete :
      {S : Type 0} (fd : ℕ) (m : Option (List (ℕ × S))) → find_socket fd (delete_socket fd m) ≡ none
  find-delete fd none = refl
  find-delete fd (some m) = ground (arith, lookup-erase fd fd m)

  pub no_socket :
      (fd events : ℕ) (w : World D)
      → find_socket fd w.loop.sockets ≡ none
      → loop_event D H P (some fd) events w ≡ some w
  unfolding loop_event EventLoop.handler_event
  no_socket fd events w h = ground arith

  -- After the task that closes an open connection has run, events that the poller still reports for
  -- its descriptor change nothing: the loop has no socket for them, so neither the connection nor the
  -- user's handler sees them.
  pub close_task_silences :
      (c events : ℕ) (w : World D)
      → (w.conns c).connected ≡ true
      → (w' : World D) × (run_task D H P (close_task c) w ≡ some w')
        × ((w'.conns c).connected ≡ false)
        × (loop_event D H P (some (w.conns c).fd) events w' ≡ some w')
  unfolding run_task
  close_task_silences c events w up =
      let fd = (w.conns c).fd in
      let s = focus D c w in
      let t = handle_close D H fd s in
      let closed = handle_close_lem D H fd s up in
      let w' = unfocus D c t w in
      (
        w',
        refl,
        rw (==_refl c) closed.0,
        no_socket fd events w' (ap (find_socket fd) closed.1 ∙ find-delete fd w.loop.sockets),
      )

  -- In a loop whose `Stop` has run, the task of a new connection panics, whatever `OnConnect` does: it
  -- writes to the nil map of sockets.
  pub open_task-stop_task :
      (c fd : ℕ) (w : World D)
      → (w' : World D) × (run_task D H P stop_task w ≡ some w')
        × (run_task D H P (open_task c fd) w' ≡ none)
  unfolding run_task
  open_task-stop_task c fd w = let w' = stop_sockets D w in (w', refl, opened w' refl)
    where
      opened : (w' : World D) → w'.loop.sockets ≡ none → open_connection D H P c fd w' ≡ none
      opened w' gone =
          let s = focus D c w' in
          let k = run_callback-Keeps D (H.on_connect s.conn s.user) s in
          unfold open_connection EventLoop.add_socket_and_enable_read in ground (arith, k)
