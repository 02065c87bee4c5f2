-- ===== src/Windows/Goroutines.antt =====
-- server_std.go: a connection shared by its goroutines. `writeLoop` moves between the places where it reads or
-- writes what others see: the channel `dying`, the flag `connected`, the queue under `mu`, and the connection of
-- the system. Between its steps any goroutine may call `Send` or `Close`, each in the steps that it takes,
-- and `readLoop`, the timer and the user may do what they like with what is theirs.
pub mod Ends
pub mod Order
pub mod Sent
use gev.Base.{
  ℕ, suc, ◌≡◌, Bool, true, false, not, ◌&&◌, List, [], ◌∷◌, ◌++◌, if◌then◌else◌, ◌==◌, length,
  is_nil,
}
use gev.Deps.{Deps, Bytes}
use gev.Windows.{Parts, State, SendTask, write_out, keep_unsent}
use gev.Windows.Rounds.{retrieve_out, refresh, sync_out}

-- Where `writeLoop` stands: at the top of its loop; before the swap of the queues; between two tasks; in a task
-- that saw `connected` set; in the `Close` of a task whose write failed; before its own write; before the
-- write of the second piece of the ring; in the `Close` after its own write failed; or at its end.
pub data Pc : Type 0 where
  polling swapping running sending closing_send flushing closing_end ended : Pc
  writing_second : Bytes → Pc

pub record Shared (D : Deps) : Type 0 where
  -- Here `task_queue_r` is what is left of the tasks that `writeLoop` took.
  pub base : State D
  -- The calls of `Send` between their test and their append.
  pub senders : ℕ
  -- Every task that was ever appended, in the order of the lock, and those that were run.
  pub log : List (SendTask D)
  pub done : List (SendTask D)
  pub pc : Pc

-- What the steps of the other goroutines leave alone.
pub record Same (D : Deps) (sent : ℕ → D.Os → Bytes) (a b : State D) : Type 0 where
  pub same_self : b.self ≡ a.self
  pub same_connected : b.conn.connected ≡ a.conn.connected
  pub same_dying : b.conn.dying ≡ a.conn.dying
  pub same_queue_w : b.conn.task_queue_w ≡ a.conn.task_queue_w
  pub same_queue_r : b.conn.task_queue_r ≡ a.conn.task_queue_r
  pub same_out : b.conn.out_buffer ≡ a.conn.out_buffer
  pub same_sent : sent a.self b.os ≡ sent a.self a.os

module _ (D : Deps) (S : Parts D) where
  abbrev pub with_base : State D → Pc → Shared D → Shared D
  with_base u pc s = record s { base = u; pc = pc }

  abbrev pub with_queues : List (SendTask D) → List (SendTask D) → State D → State D
  with_queues w r u =
      let c = u.conn in record u { conn = record c { task_queue_w = w; task_queue_r = r } }

  abbrev pub with_flags : Bool → Bool → State D → State D
  with_flags connected dying u =
      let c = u.conn in record u { conn = record c { connected = connected; dying = dying } }

  -- A task was run or skipped, and `fs` are left.
  abbrev pub next_task : SendTask D → List (SendTask D) → Shared D → Shared D
  next_task f fs s =
      let u = s.base in
      record s {
        base = with_queues u.conn.task_queue_w fs u;
        done = s.done ++ f ∷ [];
        pc = running;
      }

  -- `sendInLoop` of a packet, up to the `Close` where its write fails.
  unfoldable pub send_packet : Bytes → Shared D → Shared D
  unfolding keep_unsent
  send_packet b s =
      let u = s.base in
      let (n, failed, os) = S.write u.self b u.os in
      let u1 = record u { os = os } in
      if not (D.is_empty u.conn.out_buffer)
      then with_base (write_out D S b u) running s
      else if failed
      then with_base u1 closing_send s
      else with_base (keep_unsent D S n b u1) running s

  -- The writes of `writeLoop`.
  unfoldable pub write_second : Bytes → Shared D → Shared D
  write_second end s =
      let u = s.base in
      let (n, failed, os) = S.write u.self end u.os in
      let u1 = record u { os = os } in
      if failed
      then with_base u1 closing_end s
      else with_base (sync_out D S (refresh D S (retrieve_out D S n u1))) polling s

  unfoldable pub write_first : Shared D → Shared D
  write_first s =
      let u = s.base in
      let (first, end) = D.peek_all u.conn.out_buffer in
      let (n, failed, os) = S.write u.self first u.os in
      let u1 = record u { os = os } in
      let u2 = retrieve_out D S n u1 in
      if failed
      then with_base u1 closing_end s
      else if n == length first && not (is_nil end)
      then with_base u2 (writing_second end) s
      else with_base (sync_out D S (refresh D S u2)) polling s

  -- A step from `s` to `t`; `sent` is what the system took from each connection.
  pub data Step (sent : ℕ → D.Os → Bytes) (s t : Shared D) : Type 0 where
    -- `Send` and `Close`, by any goroutine. `Close` returns only when `connected` is down.
    test_connected :
        s.base.conn.connected ≡ true → t ≡ record s { senders = suc s.senders } → Step sent s t
    append :
        (f : SendTask D) (n : ℕ)
        → s.senders ≡ suc n
        → t ≡ record s {
          base = with_queues (s.base.conn.task_queue_w ++ f ∷ []) s.base.conn.task_queue_r s.base;
          log = s.log ++ f ∷ [];
          senders = n;
        }
        → Step sent s t
    close_dying :
        s.base.conn.dying ≡ false
        → t ≡ record s { base = with_flags s.base.conn.connected true s.base }
        → Step sent s t
    clear_connected :
        s.base.conn.dying ≡ true
        → t ≡ record s { base = with_flags false true s.base }
        → Step sent s t
    elsewhere : (u : State D) → Same D sent s.base u → t ≡ record s { base = u } → Step sent s t
    -- `writeLoop`.
    see_dying :
        s.pc ≡ polling → s.base.conn.dying ≡ true → t ≡ record s { pc = ended } → Step sent s t
    go_on :
        s.pc ≡ polling → s.base.conn.dying ≡ false → t ≡ record s { pc = swapping } → Step sent s t
    swap :
        s.pc ≡ swapping
        → t
          ≡ with_base
              (with_queues s.base.conn.task_queue_r s.base.conn.task_queue_w s.base)
              running
              s
        → Step sent s t
    see_connected :
        (f : SendTask D) (fs : List (SendTask D))
        → s.pc ≡ running
        → s.base.conn.task_queue_r ≡ f ∷ fs
        → s.base.conn.connected ≡ true
        → t ≡ record s { pc = sending }
        → Step sent s t
    skip :
        (f : SendTask D) (fs : List (SendTask D))
        → s.pc ≡ running
        → s.base.conn.task_queue_r ≡ f ∷ fs
        → s.base.conn.connected ≡ false
        → t ≡ next_task f fs s
        → Step sent s t
    send_task :
        (f : SendTask D) (fs : List (SendTask D))
        → s.pc ≡ sending
        → s.base.conn.task_queue_r ≡ f ∷ fs
        → t ≡ send_packet (S.packet f.value) (next_task f fs s)
        → Step sent s t
    close_returns :
        s.pc ≡ closing_send
        → s.base.conn.connected ≡ false
        → t ≡ record s { pc = running }
        → Step sent s t
    all_run :
        s.pc ≡ running
        → s.base.conn.task_queue_r ≡ []
        → t ≡ record s { pc = flushing }
        → Step sent s t
    nothing_waits :
        s.pc ≡ flushing
        → D.is_empty s.base.conn.out_buffer ≡ true
        → t ≡ record s { pc = polling }
        → Step sent s t
    flush :
        s.pc ≡ flushing
        → D.is_empty s.base.conn.out_buffer ≡ false
        → t ≡ write_first s
        → Step sent s t
    flush_second :
        (end : Bytes) → s.pc ≡ writing_second end → t ≡ write_second end s → Step sent s t
    close_ends :
        s.pc ≡ closing_end
        → s.base.conn.connected ≡ false
        → t ≡ record s { pc = ended }
        → Step sent s t

  -- A connection of which nothing was sent yet, when its goroutines begin.
  pub record IsNew (sent : ℕ → D.Os → Bytes) (s : Shared D) : Type 0 where
    pub at_top : s.pc ≡ polling
    pub none_sent : sent s.base.self s.base.os ≡ []
    pub none_waits : D.is_empty s.base.conn.out_buffer ≡ true
    pub none_queued : s.base.conn.task_queue_w ≡ []
    pub none_taken : s.base.conn.task_queue_r ≡ []
    pub none_logged : s.log ≡ []
    pub none_done : s.done ≡ []

  pub data Reach (sent : ℕ → D.Os → Bytes) : Shared D → Type 0 where
    here : {s : Shared D} → IsNew sent s → Reach sent s
    next : {s t : Shared D} → Reach sent s → Step sent s t → Reach sent t
