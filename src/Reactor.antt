-- ===== src/Reactor.antt =====
-- connection.go, eventloop/eventloop.go and server.go together: one loop with the connections that belong
-- to it, which handles the events of its poller and runs the functions that were queued. A connection
-- is named by a number, as the source names it by a pointer.
pub mod Lifecycle
pub mod Count
pub mod Owned
pub mod Sound
pub mod Reach
pub mod Closing
pub mod Stopped
pub mod Drained
pub mod Early
use mathlib.Core.Option
use gev.Base.{ℕ, Bool, true, false, List, [], ◌∷◌, Option, none, some, ◌==◌, if◌then◌else◌}
use gev.Deps.{Deps}
use gev.Poller.Epoll
use gev.Poller.Epoll.{CloseError, Wait, PollVars}
use gev.EventLoop
use gev.EventLoop.{EventLoop}
use gev.Connection.{Connection, State, Handler, Task, send_task, close_task, open_task, stop_task}
use gev.Connection.Close.{close, handle_close, run_callback}
use gev.Connection.Send.{run_send}
use gev.Connection.Event.{handle_event}
use gev.Protocol.{Protocol}

pub record World (D : Deps) : Type 0 where
  pub loop : EventLoop ℕ (Task D)
  pub conns : ℕ → Connection D
  pub os : D.Os
  pub user : D.User

module _ (D : Deps) where
  abbrev pub focus : ℕ → World D → State D
  focus c w = record { self = c; conn = w.conns c; loop = w.loop; os = w.os; user = w.user }

  abbrev pub unfocus : ℕ → State D → World D → World D
  unfocus c s w = record {
    loop = s.loop;
    conns = λ k. if k == c then s.conn else w.conns k;
    os = s.os;
    user = s.user;
  }

  -- A method on one connection.
  unfoldable pub on_conn : ℕ → (State D → State D) → World D → World D
  on_conn c f w = unfocus c (f (focus c w)) w

  -- `for _, v := range l.sockets { v.Close() }`: an error is only logged.
  unfoldable pub close_sockets : List (ℕ × ℕ) → World D → World D
  unfolding on_conn
  close_sockets [] w = w
  close_sockets ((fd, c) ∷ rest) w = close_sockets rest (on_conn c (λ s. (close D s).1) w)

  abbrev pub registered : Option (List (ℕ × ℕ)) → List (ℕ × ℕ)
  registered none = []
  registered (some m) = m

  -- The function that `Stop` queues.
  unfoldable pub stop_sockets : World D → World D
  unfolding close_sockets
  stop_sockets w =
      let w1 = close_sockets (registered w.loop.sockets) w in
      let l = w1.loop in record w1 { loop = record l { sockets = none } }

  -- `Stop` up to its wait.
  unfoldable pub request_stop : World D → Option CloseError × World D
  request_stop w =
      let (e, l, os) = EventLoop.stop_request D stop_task w.loop w.os in
      (e, record w { loop = l; os = os })

  -- After a panic there is no world.
  abbrev pub read_wake : Option (World D) → Option (World D)
  read_wake none = none
  read_wake (some w) = some (record w { os = Epoll.wake_handler_read D w.loop.poll w.os })

  abbrev pub is_running : Option (World D) → Bool
  is_running none = false
  is_running (some w) = w.loop.poll.running

  module _ (H : Handler D) (P : Protocol D) where
    -- `OnConnect`, then the registration: an error of it is only logged.
    unfoldable pub open_connection : ℕ → ℕ → World D → Option (World D)
    unfolding on_conn
    open_connection c fd w =
        let w1 = on_conn c (λ s. run_callback D (H.on_connect s.conn s.user) s) w in
        elim (EventLoop.add_socket_and_enable_read D fd c w1.loop w1.os) [
          | none ↦ none
          | some (e, l, os) ↦ some (record w1 { loop = l; os = os })
        ]

    unfoldable pub run_task : Task D → World D → Option (World D)
    unfolding on_conn open_connection stop_sockets
    run_task (send_task c value finish) w = some (on_conn c (run_send D H P value finish) w)
    run_task (close_task c) w = some (on_conn c (λ s. handle_close D H s.conn.fd s) w)
    run_task (open_task c fd) w = open_connection c fd w
    run_task stop_task w = some (stop_sockets w)

    unfoldable pub handle_socket : ℕ → ℕ → ℕ → World D → Option (World D)
    unfolding on_conn
    handle_socket c fd events w = some (on_conn c (handle_event D H P fd events) w)

    -- What the poller calls: `none` as the descriptor is the -1 of a wake-up, and as a result a panic.
    unfoldable pub loop_event : Option ℕ → ℕ → World D → Option (World D)
    loop_event =
        EventLoop.handler_event (λ w. w.loop) (λ l w. record w { loop = l }) handle_socket run_task

    abbrev pub on_event : Option ℕ → ℕ → Option (World D) → Option (World D)
    on_event fd events none = none
    on_event fd events (some w) = loop_event fd events w

    -- A round of `Run`, as `Poll` makes it with the handler of this loop; `true` says that it returns.
    unfoldable pub run_round : Wait → PollVars → World D → Bool × PollVars × Option (World D)
    run_round x v w =
        Epoll.poll_round w.loop.poll.event_fd on_event read_wake is_running x v (some w)
