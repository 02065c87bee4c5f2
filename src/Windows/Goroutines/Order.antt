-- ===== src/Windows/Goroutines/Order.antt =====
-- server_std.go: the order in which the tasks of `Send` are run.
use gev.Base.{
  ℕ, ◌≡◌, ap, Bool, true, false, List, [], ◌∷◌, ◌++◌, append_order, run_order, swap_order, arith,
}
use gev.Deps.{Deps, Bytes}
use gev.Windows.{Parts, SendTask}
use gev.Windows.Goroutines.{
  Pc, running, sending, closing_send, Shared, next_task, send_packet, write_first, write_second,
  Step, test_connected, append, close_dying, clear_connected, elsewhere, see_dying, go_on, swap,
  see_connected, skip, send_task, close_returns, all_run, nothing_waits, flush, flush_second,
  close_ends, Reach, here, next,
}

-- The places where tasks that were taken may be left.
abbrev pub runs_tasks : Pc → Bool
runs_tasks running = true
runs_tasks sending = true
runs_tasks closing_send = true
runs_tasks _ = false

module _ (D : Deps) (S : Parts D) where
  abbrev pub taken : Shared D → List (SendTask D)
  taken s = s.base.conn.task_queue_r

  abbrev pub queued : Shared D → List (SendTask D)
  queued s = s.base.conn.task_queue_w

  record Inv (s : Shared D) : Type 0 where
    idle : runs_tasks s.pc ≡ false → taken s ≡ []
    in_order : s.done ++ (taken s ++ queued s) ≡ s.log

  -- The tasks are the same in both.
  pub record SameTasks (s t : Shared D) : Type 0 where
    pub taken_eq : taken t ≡ taken s
    pub queued_eq : queued t ≡ queued s
    pub log_eq : t.log ≡ s.log
    pub done_eq : t.done ≡ s.done

  pub send_packet-SameTasks : (b : Bytes) (s : Shared D) → SameTasks s (send_packet D S b s)
  unfolding send_packet
  send_packet-SameTasks b s = ground arith

  pub send_packet_runs : (b : Bytes) (s : Shared D) → runs_tasks (send_packet D S b s).pc ≡ true
  unfolding send_packet
  send_packet_runs b s = ground arith

  pub write_second-SameTasks : (e : Bytes) (s : Shared D) → SameTasks s (write_second D S e s)
  unfolding write_second
  write_second-SameTasks e s = ground arith

  pub write_first-SameTasks : (s : Shared D) → SameTasks s (write_first D S s)
  unfolding write_first
  write_first-SameTasks s = ground arith

  SameTasks-Inv :
      {s t : Shared D} → SameTasks s t → (runs_tasks t.pc ≡ false → taken s ≡ []) → Inv s → Inv t
  SameTasks-Inv m h v = ground (arith, m.taken_eq, h)

  task_done-Inv :
      (f : SendTask D) (fs : List (SendTask D)) (s : Shared D)
      → taken s ≡ f ∷ fs
      → Inv s
      → Inv (next_task D S f fs s)
  task_done-Inv f fs s h v = record {
    idle = λ e. cc;
    in_order = run_order f fs s.done (taken s) (queued s) s.log h v.in_order;
  }

  Step-Inv : {sent : ℕ → D.Os → Bytes} {s t : Shared D} → Step D S sent s t → Inv s → Inv t
  Step-Inv (test_connected up e) v = rw e (record { idle = v.idle; in_order = v.in_order })
  Step-Inv {s} (append f n a e) v = rw e (record {
    idle = v.idle;
    in_order = append_order f s.done (taken s) (queued s) s.log v.in_order;
  })
  Step-Inv (close_dying h e) v = rw e (record { idle = v.idle; in_order = v.in_order })
  Step-Inv (clear_connected h e) v = rw e (record { idle = v.idle; in_order = v.in_order })
  Step-Inv (elsewhere u m e) v = ground (arith, m.same_queue_w, m.same_queue_r, v.in_order, v.idle)
  Step-Inv (see_dying p h e) v = ground arith
  Step-Inv (go_on p h e) v = ground arith
  Step-Inv {s} (swap p e) v =
      let free : taken s ≡ [] = v.idle (ap runs_tasks p) in
      rw e (record {
        idle = λ h. cc;
        in_order = swap_order s.done (taken s) (queued s) s.log free v.in_order;
      })
  Step-Inv (see_connected f fs p h up e) v = ground arith
  Step-Inv {s} (skip f fs p h down e) v = rw e (task_done-Inv f fs s h v)
  Step-Inv {s} (send_task f fs p h e) v =
      let u = next_task D S f fs s in
      rw e (
        SameTasks-Inv (send_packet-SameTasks (S.packet f.value) u)
          (λ q. absurd (ground (arith, send_packet_runs (S.packet f.value) u, q)))
          (task_done-Inv f fs s h v))
  Step-Inv (close_returns p h e) v = ground arith
  Step-Inv (all_run p h e) v = ground arith
  Step-Inv (nothing_waits p h e) v = ground arith
  Step-Inv {s} (flush p h e) v =
      rw e (SameTasks-Inv (write_first-SameTasks s) (λ q. v.idle (ap runs_tasks p)) v)
  Step-Inv {s} (flush_second end p e) v =
      rw e (SameTasks-Inv (write_second-SameTasks end s) (λ q. v.idle (ap runs_tasks p)) v)
  Step-Inv (close_ends p h e) v = ground arith

  Reach-Inv : {sent : ℕ → D.Os → Bytes} {s : Shared D} → Reach D S sent s → Inv s
  Reach-Inv (here new) = ground arith
  Reach-Inv (next r st) = Step-Inv st (Reach-Inv r)

  -- In every interleaving of calls of `Send` and `Close` with `writeLoop`, the tasks that were run, those
  -- that `writeLoop` has taken and those in the queue are, one behind the other, all that `Send` ever
  -- appended, in the order of the lock; and where `writeLoop` is not at its tasks it holds none.
  pub Reach-in_order :
      {sent : ℕ → D.Os → Bytes} {s : Shared D}
      → Reach D S sent s
      → (s.done ++ (taken s ++ queued s) ≡ s.log) × (runs_tasks s.pc ≡ false → taken s ≡ [])
  Reach-in_order r = let v = Reach-Inv r in (v.in_order, v.idle)
