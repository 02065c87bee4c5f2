-- ===== src/Examples/Systems.antt =====
-- A server with one loop, from its creation: a connection that arrives, and its task.
use Prim.Native.String.{String}
use gev.Base.{true, ℕ, suc, refl, lookup, List, [], ◌∷◌, Option, some, ℤ, pos, arith}
use gev.Deps.{Sockaddr, inet4}
use gev.Deps.Simple.{sim}
use gev.EventLoop
use gev.Connection.{open_task}
use gev.Connection.Close.{run_callback, queue, perform_all}
use gev.Connection.Idle.{new_connection}
use gev.Reactor.{run_task}
use gev.Server.{Loop, Server, make_connection, hand_over}
use gev.Server.Creation.{AllFresh}
use gev.Server.System.{loop_world, ServerReach, start, later, accept, handed, work, task}
use gev.Server.System.Sound.{IsAtHome}
use gev.Server.System.Invariant.{ServerReach-IsAtHome}
use gev.Examples.{loop, echo, raw, world}

abbrev first_loop : ℕ → List ℤ → Option (ℕ × ℕ)
first_loop n counts = some (0, suc n)

abbrev addr_text : Sockaddr String → String
addr_text sa = "peer"

abbrev home : ℕ → ℕ
home c = 0

abbrev fresh : Loop sim
fresh = record loop { conn_count = pos 0; sockets = some [] }

abbrev server : Server sim ℕ
server = record {
  work_loops = fresh ∷ [];
  strategy_state = 0;
  conns = world.conns;
  next_conn = 0;
  idle_time = pos 0;
  running = true;
  os = world.os;
  user = [];
}

server-AllFresh : AllFresh sim server.work_loops
server-AllFresh = (record { live = refl; unique = tt; counted = refl }, tt)

abbrev head_loop : List (Loop sim) → Loop sim
head_loop [] = loop
head_loop (l ∷ ls) = l

abbrev reached : (s : Server sim ℕ) × ServerReach sim echo raw first_loop addr_text home server s
unfolding run_task lookup queue new_connection EventLoop.queue_in_loop
    EventLoop.add_socket_and_enable_read run_callback perform_all make_connection hand_over
reached = (
  _,
  later
      (later (later start (accept 7 (inet4 (127 ∷ 0 ∷ 0 ∷ 1 ∷ []) 9) 0 1 fresh refl refl refl))
        (handed 0 7 0 fresh refl refl (omega arith)))
      (work 0 _ refl (task (open_task 0 7) refl (omega arith) (refl, refl, refl) refl)),
)

ServerReach-IsAtHome_example :
    IsAtHome sim home reached.0.next_conn 0
      (loop_world sim (head_loop reached.0.work_loops) reached.0)
unfolding run_task lookup queue new_connection EventLoop.queue_in_loop
    EventLoop.add_socket_and_enable_read run_callback perform_all make_connection hand_over
ServerReach-IsAtHome_example =
    ServerReach-IsAtHome sim home echo raw first_loop addr_text server-AllFresh reached.1 0
      (head_loop reached.0.work_loops) refl
