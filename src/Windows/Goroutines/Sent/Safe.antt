-- ===== src/Windows/Goroutines/Sent/Safe.antt =====
-- server_std.go: what was sent is, at every moment, the front of the packets of the tasks that were run.
use gev.Base.{ℕ, ◌≡◌, refl, sym, ap, ◌∙◌, true, false, List, [], ◌∷◌, ◌++◌, arith, subst}
use gev.Deps.{Deps, Bytes}
use gev.Deps.Laws.{RingLaws}
use gev.Windows.{Parts, SendTask}
use gev.Windows.Stream.{ConnLaws, contents_empty}
use gev.Windows.Goroutines.{
  polling, swapping, running, flushing, ended, Shared, next_task, send_packet, write_first,
  write_second, Step, test_connected, append, close_dying, clear_connected, elsewhere, see_dying,
  go_on, swap, see_connected, skip, send_task, close_returns, all_run, nothing_waits, flush,
  flush_second, close_ends, Reach, here, next,
}
use gev.Windows.Goroutines.Order.{Reach-in_order}
use gev.Windows.Goroutines.Sent.{
  IsPrefix, AtSecond, is_closing, sent_of, waiting, total, packets, packets-snoc, IsPrefix-packets,
  IsPrefix-trans,
}
use gev.Windows.Goroutines.Sent.Flow.{
  Flow, flowing, skipping, broken_task, broken_flush, over, is_between, is_writing, is_quiet_open,
  Flow-closes, Flow-moves, Flow-skips, Flow-resumes, Flow-ends, Flow-sees, Flow-sending,
  Flow-second, Flow-IsPrefix, Flow-open,
}
use gev.Windows.Goroutines.Sent.Writes.{
  Kept, kept, failed, Sends, added, refused, write_second-Kept, write_first-Kept, send_packet-Sends,
}

module _ (D : Deps) (S : Parts D) (sent : ℕ → D.Os → Bytes) where
  abbrev Inv : Shared D → Type 0
  Inv s =
      Flow s.pc s.base.conn.connected (sent_of D S sent s) (waiting D S sent s) (packets D S s.done)

  all_packets :
      (f : SendTask D) (s t : Shared D)
      → t.done ≡ s.done ++ f ∷ []
      → packets D S s.done ++ S.packet f.value ≡ packets D S t.done
  all_packets f s t dn = sym (packets-snoc D S s.done f) ∙ ap (packets D S) (sym dn)

  -- A task sends its packet.
  Sends-Inv :
      (f : SendTask D) (s t : Shared D)
      → total D S sent s ≡ packets D S s.done
      → (fs : List (SendTask D)) → Sends D S sent (S.packet f.value) (next_task D S f fs s) t
      → Inv t
  Sends-Inv f s t e fs (added tot p dn) =
      flowing (tot ∙ ap (λ b. b ++ S.packet f.value) e ∙ all_packets f s t dn) (ap is_closing p)
        (subst (λ q. AtSecond q (waiting D S sent t)) (sym p) tt)
  Sends-Inv f s t e fs (refused p dn w h) = broken_task p w (
      subst (λ g. IsPrefix (sent_of D S sent t) g)
        (ap (λ b. b ++ S.packet f.value) e ∙ all_packets f s t dn) h)

  Kept-Inv : (s t : Shared D) → Kept D S sent s t → is_writing s.pc ≡ true → Inv s → Inv t
  Kept-Inv s t (kept tot q a dn con) w (flowing e _ _) =
      flowing (tot ∙ e ∙ ap (packets D S) (sym dn)) (is_quiet_open t.pc q) a
  Kept-Inv s t (kept tot q a dn con) w (skipping d _ _ h) = skipping (con ∙ d) q a (rw (tot, dn) h)
  Kept-Inv s t (kept tot q a dn con) w (broken_task p _ _) = absurd (ground arith)
  Kept-Inv s t (kept tot q a dn con) w (broken_flush p _) = absurd (ground arith)
  Kept-Inv s t (kept tot q a dn con) w (over p _ _) = absurd (ground arith)
  Kept-Inv s t (failed p dn h) w (flowing e _ _) =
      broken_flush p
        (subst (λ g. IsPrefix (sent_of D S sent t) g) (e ∙ ap (packets D S) (sym dn)) h)
  Kept-Inv s t (failed p dn h) w (skipping _ _ _ k) = broken_flush p (
      subst (λ ts. IsPrefix (sent_of D S sent t) (packets D S ts)) (sym dn)
        (IsPrefix-trans (sent_of D S sent t) (total D S sent s) (packets D S s.done) h k))
  Kept-Inv s t (failed p dn h) w (broken_task q _ _) = absurd (ground arith)
  Kept-Inv s t (failed p dn h) w (broken_flush q _) = absurd (ground arith)
  Kept-Inv s t (failed p dn h) w (over q _ _) = absurd (ground arith)

  module _ (R : RingLaws D) (W : ConnLaws D S sent) where
    Step-Inv : {s t : Shared D} → Step D S sent s t → Inv s → Inv t
    Step-Inv (test_connected up e) v = rw e v
    Step-Inv (append f n a e) v = rw e v
    Step-Inv {s} (close_dying h e) v = rw e v
    Step-Inv {s} (clear_connected h e) v = rw e (Flow-closes s.pc s.base.conn.connected v)
    Step-Inv {s} (elsewhere u m e) v =
        rw (e, m.same_connected, m.same_self, m.same_sent, m.same_out) v
    Step-Inv (see_dying p h e) v = rw e (Flow-moves ended (ap is_between p) refl tt v)
    Step-Inv (go_on p h e) v = rw e (Flow-moves swapping (ap is_between p) refl tt v)
    Step-Inv {s} (swap p e) v = rw e (Flow-moves running (ap is_between p) refl tt v)
    Step-Inv (see_connected f fs p h up e) v = rw e (Flow-sees p up v)
    Step-Inv {s} (skip f fs p h down e) v = rw e (
        subst (λ g. Flow running s.base.conn.connected (sent_of D S sent s) (waiting D S sent s) g)
          (all_packets f s (next_task D S f fs s) refl) (Flow-skips (S.packet f.value) p down v))
    Step-Inv {s} (send_task f fs p h e) v = rw e (
        Sends-Inv f s (send_packet D S (S.packet f.value) (next_task D S f fs s)) (Flow-sending p v)
          fs (send_packet-Sends D S sent R W (S.packet f.value) (next_task D S f fs s)))
    Step-Inv (close_returns p h e) v = rw e (Flow-resumes p h v)
    Step-Inv (all_run p h e) v = rw e (Flow-moves flushing (ap is_between p) refl tt v)
    Step-Inv (nothing_waits p h e) v = rw e (Flow-moves polling (ap is_between p) refl tt v)
    Step-Inv {s} (flush p h e) v =
        rw e (Kept-Inv s (write_first D S s) (write_first-Kept D S sent R W s) (ap is_writing p) v)
    Step-Inv {s} (flush_second end p e) v = rw e (
        Kept-Inv s (write_second D S end s)
          (write_second-Kept D S sent R W end s (Flow-second end p v)) (ap is_writing p) v)
    Step-Inv (close_ends p h e) v = rw e (Flow-ends p h v)

    Reach-Inv : {s : Shared D} → Reach D S sent s → Inv s
    Reach-Inv {s} (here new) =
        let nothing = contents_empty D S R sent W s.base.conn.out_buffer new.none_waits in
        rw (new.at_top, new.none_sent, nothing, new.none_done) (flowing refl refl tt)
    Reach-Inv (next r st) = Step-Inv st (Reach-Inv r)

    -- In every interleaving of calls of `Send` and `Close` with `writeLoop`, failed writes included, what
    -- `net.Conn` took is the front of the packets of all that `Send` appended, in the order of the lock. While the
    -- connection is open and `writeLoop` does not close it, what `net.Conn` took followed by what waits in the
    -- write buffer is all the packets of the tasks that were run.
    pub Reach-sent :
        {s : Shared D}
        → Reach D S sent s
        → IsPrefix (sent_of D S sent s) (packets D S s.log)
          × (s.base.conn.connected ≡ true
              → is_closing s.pc ≡ false
              → total D S sent s ≡ packets D S s.done)
    Reach-sent {s} r =
        let v = Reach-Inv r in
        (
          IsPrefix-packets D S (sent_of D S sent s) s.done
              (s.base.conn.task_queue_r ++ s.base.conn.task_queue_w) (Reach-in_order D S r).0
              (Flow-IsPrefix v),
          (λ up q. Flow-open up q v),
        )
