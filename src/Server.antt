-- ===== src/Server.antt =====
-- server.go: the server, its listener and its worker loops. `strategy` is the load balancing strategy
-- with its state, over the loops' counts of connections; a `none` is a panic.
pub mod Creation
pub mod Accept
pub mod Setup
pub mod System
use Prim.Native.String.{String}
use gev.Base.{
  ℕ, zero, suc, ◌+◌, Bool, true, false, not, List, [], ◌∷◌, ◌++◌, Option, none, some, map,
  get_elem?, set, ◌==◌, if◌then◌else◌, ℤ, pos, negsuc, pos_part, ltb_ℤ,
}
use gev.Deps.{Deps, Errno, Result, ok, err, Sockaddr}
use gev.EventLoop
use gev.EventLoop.{EventLoop}
use gev.Connection.{Connection, State, Task, open_task, stop_task, sock_addr_to_string}
use gev.Connection.Close.{queue}
use gev.Connection.Idle.{new_connection}

abbrev pub Loop : Deps → Type 0
Loop D = EventLoop ℕ (Task D)

pub record Server (D : Deps) (St : Type 0) : Type 0 where
  pub work_loops : List (Loop D)
  pub strategy_state : St
  pub conns : ℕ → Connection D
  -- The number of the next connection.
  pub next_conn : ℕ
  pub idle_time : ℤ
  pub running : Bool
  pub os : D.Os
  pub user : D.User

-- `NumLoops`, or the count of CPUs if it is not positive.
abbrev pub loop_count : ℤ → ℕ → ℕ
loop_count (pos zero) num_cpu = num_cpu
loop_count (pos (suc n)) num_cpu = suc n
loop_count (negsuc n) num_cpu = num_cpu

module _ (D : Deps) where
  open D use {Os}

  -- `wloops[j].Stop()` for the loops made so far, which no goroutine runs yet.
  pub stop_loops : List (Loop D) → Os → Os
  stop_loops [] os = os
  stop_loops (l ∷ ls) os = stop_loops ls (EventLoop.stop_request D stop_task l os).2

  -- The loop over `NumLoops`, with the loops made so far.
  unfoldable pub create_loops : ℕ → List (Loop D) → Os → Result (List (Loop D)) × Os
  unfolding stop_loops
  create_loops zero made os = (ok made, os)
  create_loops (suc n) made os =
      let (created, os1) = EventLoop.new D os in
      elim created [
        | err e ↦ (err e, stop_loops made os1)
        | ok l ↦ create_loops n (made ++ l ∷ []) os1
      ]

  -- The part of `NewServer` behind the listener.
  unfoldable pub new_work_loops : ℤ → ℕ → Os → Result (List (Loop D)) × Os
  unfolding create_loops
  new_work_loops num_loops num_cpu os = create_loops (loop_count num_loops num_cpu) [] os

  module _ {St : Type 0} (addr_text : Sockaddr String → String) where
    -- `NewConnection` for the loop that the strategy chose, with the strategy's new state. The timer of the
    -- connection may run from here on.
    unfoldable pub make_connection : ℕ → Sockaddr String → St → Loop D → Server D St → Server D St
    make_connection fd sa st l s =
        let t =
          new_connection D s.next_conn fd l (addr_text sa) (pos_part s.idle_time) s.user s.os in
        record s {
          strategy_state = st;
          conns = λ k. if k == s.next_conn then t.conn else s.conns k;
          next_conn = s.next_conn + 1;
          os = t.os;
        }

  -- `QueueInLoop` of `OnConnect` and the registration of connection `c`, in loop `i`.
  unfoldable pub hand_over : {St : Type 0} → ℕ → ℕ → ℕ → Loop D → Server D St → Server D St
  hand_over c fd i l s =
      let here : State D = record {
        self = c;
        conn = s.conns c;
        loop = l;
        os = s.os;
        user = s.user;
      } in
      let t = queue D (open_task c fd) here in
      record s { work_loops = set s.work_loops i t.loop; os = t.os }

  module _ {St : Type 0} (strategy : St → List ℤ → Option (ℕ × St))
      (addr_text : Sockaddr String → String) where
    -- Both, where no other goroutine comes between them.
    unfoldable pub handle_new_connection : ℕ → Sockaddr String → Server D St → Option (Server D St)
    unfolding make_connection hand_over
    handle_new_connection fd sa s =
        elim (strategy s.strategy_state (map (λ l. l.conn_count) s.work_loops)) [
          | none ↦ none
          | some (i, st) ↦ elim (get_elem? s.work_loops i) [
            | none ↦ none
            | some l ↦ some (hand_over s.next_conn fd i l (make_connection addr_text fd sa st l s))
          ]
        ]

  -- `Stop` up to the waits for the loops: the requests to all worker loops, in order. Their errors are
  -- only logged. The timing wheel and the listener's loop are stopped by `stop_rest`.
  pub request_stops : List (Loop D) → Os → List (Loop D) × Os
  request_stops [] os = ([], os)
  request_stops (l ∷ ls) os =
      let (e, l', os1) = EventLoop.stop_request D stop_task l os in
      let (ls', os2) = request_stops ls os1 in (l' ∷ ls', os2)

  unfoldable pub stop : {St : Type 0} → (Os → Os) → Server D St → Server D St
  unfolding request_stops
  stop stop_rest s =
      let (ls, os) = request_stops s.work_loops (stop_rest s.os) in
      if s.running then record s { running = false; work_loops = ls; os = os } else s
