-- ===== src/Windows/Goroutines/Ends.antt =====
-- server_std.go: the end of `writeLoop` after `Close`.
use gev.Base.{
  ℕ, ◌+◌, ◌≤◌, ◌≡◌, ◌≢◌, refl, Bool, true, false, List, [], ◌∷◌, length, arith, length-append, inl,
  inr, Bool-cases,
}
use gev.Deps.{Deps, Bytes}
use gev.Windows.{Parts, SendTask}
use gev.Windows.Goroutines.{
  Pc, polling, swapping, running, sending, closing_send, flushing, closing_end, ended,
  writing_second, Shared, next_task, send_packet, write_first, write_second, Step, test_connected,
  append, close_dying, clear_connected, elsewhere, see_dying, go_on, swap, see_connected, skip,
  send_task, close_returns, all_run, nothing_waits, flush, flush_second, close_ends, Reach, here,
  next,
}
use gev.Windows.Goroutines.Order.{
  taken, queued, send_packet-SameTasks, write_first-SameTasks, write_second-SameTasks,
}

-- The steps of `writeLoop`.
abbrev pub by_writer :
    {D : Deps} {S : Parts D} {sent : ℕ → D.Os → Bytes} {s t : Shared D} → Step D S sent s t → Bool
by_writer (test_connected up e) = false
by_writer (append f n a e) = false
by_writer (close_dying h e) = false
by_writer (clear_connected h e) = false
by_writer (elsewhere u m e) = false
by_writer (see_dying p h e) = true
by_writer (go_on p h e) = true
by_writer (swap p e) = true
by_writer (see_connected f fs p h up e) = true
by_writer (skip f fs p h down e) = true
by_writer (send_task f fs p h e) = true
by_writer (close_returns p h e) = true
by_writer (all_run p h e) = true
by_writer (nothing_waits p h e) = true
by_writer (flush p h e) = true
by_writer (flush_second end p e) = true
by_writer (close_ends p h e) = true

abbrev pub steps_of : Bool → ℕ
steps_of true = 1
steps_of false = 0

-- The most steps that are left of a round once the connection is closed, its tasks apart.
abbrev rank_of : Pc → ℕ
rank_of polling = 1
rank_of swapping = 5
rank_of running = 4
rank_of sending = 4
rank_of closing_send = 5
rank_of flushing = 3
rank_of closing_end = 1
rank_of ended = 0
rank_of (writing_second end) = 2

module _ (D : Deps) (S : Parts D) where
  -- `Close` has done what others see.
  pub record IsShut (s : Shared D) : Type 0 where
    pub down : s.base.conn.connected ≡ false
    pub dying : s.base.conn.dying ≡ true

  -- The tasks that there are, and those of the calls of `Send` that are on their way.
  abbrev pub tasks : Shared D → ℕ
  tasks s = s.senders + (length (taken D S s) + length (queued D S s))

  abbrev rank : Shared D → ℕ
  rank s = rank_of s.pc + (tasks s + tasks s)

  record Flags (s t : Shared D) : Type 0 where
    connected_eq : t.base.conn.connected ≡ s.base.conn.connected
    dying_eq : t.base.conn.dying ≡ s.base.conn.dying
    senders_eq : t.senders ≡ s.senders

  send_packet-Flags : (b : Bytes) (s : Shared D) → Flags s (send_packet D S b s)
  unfolding send_packet
  send_packet-Flags b s = ground arith

  write_second-Flags : (e : Bytes) (s : Shared D) → Flags s (write_second D S e s)
  unfolding write_second
  write_second-Flags e s = ground arith

  write_first-Flags : (s : Shared D) → Flags s (write_first D S s)
  unfolding write_first
  write_first-Flags s = ground arith

  send_packet-rank : (b : Bytes) (s : Shared D) → rank_of (send_packet D S b s).pc ≤ 5
  unfolding send_packet
  send_packet-rank b s = ground arith

  write_second-rank : (e : Bytes) (s : Shared D) → rank_of (write_second D S e s).pc ≡ 1
  unfolding write_second
  write_second-rank e s = ground arith

  write_first-rank : (s : Shared D) → rank_of (write_first D S s).pc ≤ 2
  unfolding write_first
  write_first-rank s = ground arith

  -- Where a task is to be sent there is one.
  abbrev HasTask : Shared D → Type 0
  HasTask s = s.pc ≡ sending → taken D S s ≢ []

  send_packet-pc : (b : Bytes) (s : Shared D) → (send_packet D S b s).pc ≢ sending
  unfolding send_packet
  send_packet-pc b s = ground arith

  write_second-pc : (e : Bytes) (s : Shared D) → (write_second D S e s).pc ≢ sending
  unfolding write_second
  write_second-pc e s = ground arith

  write_first-pc : (s : Shared D) → (write_first D S s).pc ≢ sending
  unfolding write_first
  write_first-pc s = ground arith

  module _ (sent : ℕ → D.Os → Bytes) where
    Step-rank :
        {s t : Shared D} (st : Step D S sent s t)
        → IsShut s
        → IsShut t × (steps_of (by_writer st) + rank t ≤ rank s)
    Step-rank (test_connected up e) v = ground arith
    Step-rank {s} (append f n a e) v = rw e (
      record { down = v.down; dying = v.dying },
      ground (arith, length-append (queued D S s) (f ∷ [])),
    )
    Step-rank (close_dying h e) v = ground arith
    Step-rank (clear_connected h e) v = ground arith
    Step-rank (elsewhere u m e) v =
        ground (arith, m.same_queue_w, m.same_queue_r, m.same_connected, m.same_dying)
    Step-rank (see_dying p h e) v = ground arith
    Step-rank (go_on p h e) v = ground arith
    Step-rank {s} (swap p e) v = rw e (record { down = v.down; dying = v.dying }, ground arith)
    Step-rank (see_connected f fs p h up e) v = ground arith
    Step-rank {s} (skip f fs p h down e) v =
        rw e (record { down = v.down; dying = v.dying }, ground arith)
    Step-rank {s} (send_task f fs p h e) v =
        let u = next_task D S f fs s in
        let b = S.packet f.value in
        ground (arith, send_packet-SameTasks D S b u, send_packet-Flags b u, send_packet-rank b u)
    Step-rank (close_returns p h e) v = ground arith
    Step-rank (all_run p h e) v = ground arith
    Step-rank (nothing_waits p h e) v = ground arith
    Step-rank {s} (flush p h e) v =
        ground (arith, write_first-SameTasks D S s, write_first-Flags s, write_first-rank s)
    Step-rank {s} (flush_second end p e) v =
        ground (
          arith,
          write_second-SameTasks D S end s,
          write_second-Flags end s,
          write_second-rank end s,
        )
    Step-rank (close_ends p h e) v = ground arith

    Step-HasTask : {s t : Shared D} → Step D S sent s t → HasTask s → HasTask t
    Step-HasTask (test_connected up e) v = rw e v
    Step-HasTask (append f n a e) v = rw e v
    Step-HasTask (close_dying h e) v = rw e v
    Step-HasTask (clear_connected h e) v = rw e v
    Step-HasTask (elsewhere u m e) v = rw (e, m.same_queue_r) v
    Step-HasTask (see_dying p h e) v = rw e (λ q. cc)
    Step-HasTask (go_on p h e) v = rw e (λ q. cc)
    Step-HasTask (swap p e) v = rw e (λ q. cc)
    Step-HasTask (see_connected f fs p h up e) v = rw (e, h) (λ q r. cc)
    Step-HasTask (skip f fs p h down e) v = rw e (λ q. cc)
    Step-HasTask {s} (send_task f fs p h e) v =
        rw e (λ q. absurd (send_packet-pc (S.packet f.value) (next_task D S f fs s) q))
    Step-HasTask (close_returns p h e) v = rw e (λ q. cc)
    Step-HasTask (all_run p h e) v = rw e (λ q. cc)
    Step-HasTask (nothing_waits p h e) v = rw e (λ q. cc)
    Step-HasTask {s} (flush p h e) v = rw e (λ q. absurd (write_first-pc s q))
    Step-HasTask {s} (flush_second end p e) v = rw e (λ q. absurd (write_second-pc end s q))
    Step-HasTask (close_ends p h e) v = rw e (λ q. cc)

    Reach-HasTask : {s : Shared D} → Reach D S sent s → HasTask s
    Reach-HasTask (here new) = λ q. cc
    Reach-HasTask (next r st) = Step-HasTask st (Reach-HasTask r)

    -- `writeLoop` can take a step.
    abbrev pub GoesOn : Shared D → Type 0
    GoesOn s = (t : Shared D) × (st : Step D S sent s t) × (by_writer st ≡ true)

    IsShut-GoesOn : (s : Shared D) → IsShut s → HasTask s → s.pc ≢ ended → GoesOn s
    IsShut-GoesOn s v h o = by_pc s.pc refl
      where
        by_taken : (r : List (SendTask D)) → s.pc ≡ running → taken D S s ≡ r → GoesOn s
        by_taken [] p e = (_, all_run p e refl, refl)
        by_taken (f ∷ fs) p e = (_, skip f fs p e v.down refl, refl)

        by_task : (r : List (SendTask D)) → s.pc ≡ sending → taken D S s ≡ r → GoesOn s
        by_task [] p e = absurd (h p e)
        by_task (f ∷ fs) p e = (_, send_task f fs p e refl, refl)

        by_pc : (p : Pc) → s.pc ≡ p → GoesOn s
        by_pc polling p = (_, see_dying p v.dying refl, refl)
        by_pc swapping p = (_, swap p refl, refl)
        by_pc running p = by_taken (taken D S s) p refl
        by_pc sending p = by_task (taken D S s) p refl
        by_pc closing_send p = (_, close_returns p v.down refl, refl)
        by_pc flushing p = elim (Bool-cases (D.is_empty s.base.conn.out_buffer)) [
          | inl e ↦ (_, nothing_waits p e refl, refl)
          | inr e ↦ (_, flush p e refl, refl)
        ]
        by_pc closing_end p = (_, close_ends p v.down refl, refl)
        by_pc ended p = absurd (o p)
        by_pc (writing_second end) p = (_, flush_second end p refl, refl)

    -- A run from `s` in which `writeLoop` takes `n` steps.
    pub data Run (s : Shared D) : ℕ → Shared D → Type 0 where
      start : Run s 0 s
      then_step :
          {n : ℕ} {t u : Shared D}
          → Run s n t
          → (st : Step D S sent t u) → Run s (steps_of (by_writer st) + n) u

    Run-rank :
        {s : Shared D} {n : ℕ} {t : Shared D}
        → Run s n t
        → IsShut s
        → IsShut t × (n + rank t ≤ rank s)
    Run-rank start v = (v, omega arith)
    Run-rank (then_step r st) v =
        let (w, le) = Run-rank r v in
        let (x, step_le) = Step-rank st w in (x, omega (arith, le, step_le))

    Run-Reach :
        {s : Shared D} {n : ℕ} {t : Shared D} → Reach D S sent s → Run s n t → Reach D S sent t
    Run-Reach r start = r
    Run-Reach r (then_step k st) = next (Run-Reach r k) st

    -- Once `Close` has closed the channel and cleared the flag, `writeLoop` takes at most five steps and two for
    -- each task that is queued or that a `Send` on its way will queue, whatever the other goroutines do in
    -- between and whatever its writes give; and until it has ended it can take a step.
    pub Run-ends :
        {s : Shared D} {n : ℕ} {t : Shared D}
        → Reach D S sent s
        → IsShut s
        → Run s n t
        → (n ≤ 5 + (tasks s + tasks s)) × (t.pc ≢ ended → GoesOn t)
    Run-ends {s} {n} {t} r v k =
        let (w, le) = Run-rank k v in
        (omega (arith, le, rank_le s.pc), IsShut-GoesOn t w (Reach-HasTask (Run-Reach r k)))
      where
        rank_le : (p : Pc) → rank_of p ≤ 5
        rank_le p = ground arith
