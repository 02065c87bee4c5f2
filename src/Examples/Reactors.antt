-- ===== src/Examples/Reactors.antt =====
-- A loop with its connections: the theorems on small runs.
use gev.Base.{has, false, none, map, lookup, ℕ, ◌≡◌, ◌≢◌, refl, true, List, [], ◌∷◌, some, pos}
use gev.Deps.Simple.{sim}
use gev.EventLoop
use gev.EventLoop.{find_socket}
use gev.Poller.Epoll.{poll_start, ready}
use gev.Connection.{close_task, open_task, stop_task}
use gev.Connection.Close.{run_callback, queue, perform_all}
use gev.Connection.Idle.{new_connection}
use gev.Reactor.{World, run_task, loop_event, request_stop, run_round}
use gev.Reactor.Drained.{stop_task-loop_event}
use gev.Reactor.Sound.{IsSound}
use gev.Reactor.Reach.{Reach, start, later, arrive, hand_over, task}
use gev.Reactor.Reach.Safe.{Reach-IsSound}
use gev.Reactor.Stopped.{request_stop-run_round}
use gev.Examples.{loop, conn, echo, raw, world}

request_stop-run_round_example :
    let w1 = (request_stop sim world).1 in
    let r = run_round sim echo raw (ready ((9, 1) ∷ [])) poll_start w1 in
    (r.0 ≡ true)
    × ((w' : World sim) × (r.2 ≡ some w')
        × ((c : ℕ) → w'.conns c ≡ conn ([], []))
        × (w'.user ≡ [])
        × (w'.loop.task_queue_w ≡ close_task 0 ∷ []))
request_stop-run_round_example =
    request_stop-run_round sim echo raw 1 poll_start ((7, 0) ∷ []) world refl refl refl refl

-- The same loop where `Stop` has queued its function.
abbrev stop_queued : World sim
stop_queued = record world { loop = record loop { task_queue_w = stop_task ∷ [] } }

stop_task-loop_event_example :
    (w1 w2 : World sim) × (loop_event sim echo raw none 0 stop_queued ≡ some w1)
    × (loop_event sim echo raw none 0 w1 ≡ some w2)
    × ((fd c : ℕ) → lookup fd ((7, 0) ∷ []) ≡ some c → (w2.conns c).connected ≡ false)
    × ((c : ℕ)
        → has c (map {A = ℕ × ℕ} (λ e. e.1) ((7, 0) ∷ [])) ≡ false
        → (w2.conns c).connected ≡ (stop_queued.conns c).connected)
stop_task-loop_event_example =
    stop_task-loop_event sim echo raw ((7, 0) ∷ []) stop_queued refl refl refl

-- A loop without connections, the arrival of one, and its task.
abbrev empty_world : World sim
empty_world = record world { loop = record loop { conn_count = pos 0; sockets = some [] } }

no_sockets : (j : ℕ) → find_socket {S = ℕ} j (some []) ≢ some 0
unfolding lookup
no_sockets j h = cc

abbrev opening : (w : World sim) × Reach sim echo raw empty_world w
unfolding run_task lookup queue new_connection EventLoop.queue_in_loop
    EventLoop.add_socket_and_enable_read run_callback perform_all
opening = (
  _,
  later (later (later start (arrive 0 7 "127.0.0.1:9" 2 no_sockets)) (hand_over 0 7))
      (task (open_task 0 7) (refl, refl, refl) refl),
)

Reach-IsSound_example : (m : List (ℕ × ℕ)) × IsSound sim opening.0 m
Reach-IsSound_example = Reach-IsSound sim echo raw refl refl opening.1

-- A loop at one and a half seconds, and a connection that may be idle for a millisecond.
abbrev late : World sim
late = let os = empty_world.os in record empty_world { os = record os { clock = 1500000000 } }
