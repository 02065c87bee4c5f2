-- ===== src/Server/System.antt =====
-- server.go with connection.go and eventloop/eventloop.go: a server with all its worker loops and connections,
-- over every interleaving of what its loops do and of the connections that it accepts.
pub mod Sound
pub mod Invariant
use Prim.Native.String.{String}
use gev.Base.{ℕ, ◌<◌, ◌≡◌, List, Option, none, some, map, get_elem?, set, ℤ}
use gev.Deps.{Deps, Sockaddr}
use gev.Connection.{Handler, Call, Task}
use gev.Connection.Close.{perform}
use gev.Connection.Idle.{close_timeout_conn}
use gev.Protocol.{Protocol}
use gev.Reactor.{World, on_conn, run_task, loop_event}
use gev.Reactor.Reach.{IsReady, task_conn}
use gev.Server.{Loop, Server, make_connection, hand_over}

module _ (D : Deps) where
  -- The part of a server that one of its loops works on.
  abbrev pub loop_world : {St : Type 0} → Loop D → Server D St → World D
  loop_world l s = record { loop = l; conns = s.conns; os = s.os; user = s.user }

-- `home` says which loop each connection is given to.
module _ (D : Deps) (H : Handler D) (P : Protocol D) {St : Type 0}
    (strategy : St → List ℤ → Option (ℕ × St)) (addr_text : Sockaddr String → String)
    (home : ℕ → ℕ) where
  -- What happens in loop `i` of a server with `n` connections, to connections of this loop.
  pub data Local (n i : ℕ) (w : World D) : World D → Type 0 where
    task :
        (t : Task D) {w' : World D}
        → home (task_conn D H P t) ≡ i
        → task_conn D H P t < n
        → IsReady D t w
        → run_task D H P t w ≡ some w'
        → Local n i w w'
    event :
        (fd events : ℕ) {w' : World D}
        → loop_event D H P (some fd) events w ≡ some w'
        → Local n i w w'
    call : (c : ℕ) (x : Call D) → home c ≡ i → c < n → Local n i w (on_conn D c (perform D x) w)
    timer : (c : ℕ) → home c ≡ i → c < n → Local n i w (on_conn D c (close_timeout_conn D) w)

  -- The server after loop `i` has worked.
  abbrev pub worked : ℕ → World D → Server D St → Server D St
  worked i w s = record s {
    work_loops = set s.work_loops i w.loop;
    conns = w.conns;
    os = w.os;
    user = w.user;
  }

  -- `handleNewConnection` is two steps, `accept` and `handed`, since the timer of the connection may run between.
  pub data ServerStep (s : Server D St) : Server D St → Type 0 where
    accept :
        (fd : ℕ) (sa : Sockaddr String) (i : ℕ) (st : St) (l : Loop D)
        → strategy s.strategy_state (map (λ x. x.conn_count) s.work_loops) ≡ some (i, st)
        → get_elem? s.work_loops i ≡ some l
        → home s.next_conn ≡ i
        → ServerStep s (make_connection D addr_text fd sa st l s)
    handed :
        (c fd i : ℕ) (l : Loop D)
        → get_elem? s.work_loops i ≡ some l
        → home c ≡ i
        → c < s.next_conn
        → ServerStep s (hand_over D c fd i l s)
    work :
        (i : ℕ) (l : Loop D) {w : World D}
        → get_elem? s.work_loops i ≡ some l
        → Local s.next_conn i (loop_world D l s) w
        → ServerStep s (worked i w s)

  pub data ServerReach (s : Server D St) : Server D St → Type 0 where
    start : ServerReach s s
    later : {t u : Server D St} → ServerReach s t → ServerStep t u → ServerReach s u
