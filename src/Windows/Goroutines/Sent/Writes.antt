-- ===== src/Windows/Goroutines/Sent/Writes.antt =====
-- server_std.go: what the writes of `writeLoop` do to the bytes that were sent and those that wait.
use gev.Base.{
  ℕ, ◌≡◌, refl, sym, ap, ◌∙◌, true, [], ◌++◌, append_assoc, append-nil, arith, inl, inr, Bool-cases,
  take, drop, take-append-drop, drop_append, drop-append_left, length, is_nil, ◌==◌, ==_iff,
}
use gev.Deps.{Deps, Bytes}
use gev.Deps.Laws.{RingLaws, contents}
use gev.Windows.{Parts, State}
use gev.Windows.Stream.{
  ConnLaws, all_sent, contents_empty, write_out-all_sent, keep_unsent-all_sent, written-all_sent,
}
use gev.Windows.Rounds.{retrieve_out, refresh, sync_out}
use gev.Windows.Goroutines.Sent.{IsPrefix, AtSecond, is_quiet, sent_of, waiting, total}
use gev.Windows.Goroutines.{
  running, closing_send, closing_end, Shared, send_packet, write_first, write_second,
}

module _ (D : Deps) (S : Parts D) (sent : ℕ → D.Os → Bytes) where
  -- A write of the buffer: it keeps what was sent with what waits, or fails and has sent a part of it.
  pub data Kept (s t : Shared D) : Type 0 where
    kept :
        total D S sent t ≡ total D S sent s
        → is_quiet t.pc ≡ true
        → AtSecond t.pc (waiting D S sent t)
        → t.done ≡ s.done
        → t.base.conn.connected ≡ s.base.conn.connected
        → Kept s t
    failed :
        t.pc ≡ closing_end
        → t.done ≡ s.done
        → IsPrefix (sent_of D S sent t) (total D S sent s)
        → Kept s t

  -- A packet: it is added behind all others, or the write of it fails with nothing waiting.
  pub data Sends (b : Bytes) (s t : Shared D) : Type 0 where
    added :
        total D S sent t ≡ total D S sent s ++ b → t.pc ≡ running → t.done ≡ s.done → Sends b s t
    refused :
        t.pc ≡ closing_send
        → t.done ≡ s.done
        → waiting D S sent t ≡ []
        → IsPrefix (sent_of D S sent t) (total D S sent s ++ b)
        → Sends b s t

  module _ (R : RingLaws D) (W : ConnLaws D S sent) where
    -- A write of the front of what waits, and what is behind it.
    write-total :
        (b rest : Bytes) (u : State D)
        → contents D u.conn.out_buffer ≡ b ++ rest
        → let n = (S.write u.self b u.os).0 in
          sent u.self (S.write u.self b u.os).2 ++ (drop n b ++ rest) ≡ all_sent D sent u
    write-total b rest u e =
        let n = (S.write u.self b u.os).0 in
        let old = sent u.self u.os in
        rw (W.write_sent u.self b u.os, e)
          (append_assoc old (take n b) (drop n b ++ rest)
            ∙ ap (λ t. old ++ t) (sym (append_assoc (take n b) (drop n b) rest))
            ∙ ap (λ t. old ++ (t ++ rest)) (take-append-drop n b))

    -- The same where the ring then gives up what was taken.
    retrieved-total :
        (b rest : Bytes) (u : State D)
        → contents D u.conn.out_buffer ≡ b ++ rest
        → let n = (S.write u.self b u.os).0 in
          all_sent D sent (retrieve_out D S n (record u { os = (S.write u.self b u.os).2 }))
          ≡ all_sent D sent u
    retrieved-total b rest u e =
        let n = (S.write u.self b u.os).0 in
        ap (λ t. sent u.self (S.write u.self b u.os).2 ++ t)
          (R.contents-retrieve n u.conn.out_buffer
            ∙ ap (drop n) e
            ∙ drop-append_left n b rest (W.write_le u.self b u.os))
        ∙ write-total b rest u e

    refresh-total :
        (u : State D) → all_sent D sent (sync_out D S (refresh D S u)) ≡ all_sent D sent u
    refresh-total u = ground arith

    refresh_connected :
        (u : State D) → (sync_out D S (refresh D S u)).conn.connected ≡ u.conn.connected
    refresh_connected u = ground arith

    pub write_second-Kept :
        (e : Bytes) (s : Shared D) → waiting D S sent s ≡ e → Kept s (write_second D S e s)
    unfolding write_second
    write_second-Kept e s h =
        let u = s.base in
        let n = (S.write u.self e u.os).0 in
        let u1 : State D = record u { os = (S.write u.self e u.os).2 } in
        let whole : waiting D S sent s ≡ e ++ [] = h ∙ sym (append-nil e) in
        elim (Bool-cases (S.write u.self e u.os).1) [
          | inl bad ↦
              rw (bad, write_second) (failed refl refl (drop n e ++ [], write-total e [] u whole))
          | inr fine ↦
              rw (fine, write_second)
                (kept (refresh-total (retrieve_out D S n u1) ∙ retrieved-total e [] u whole) refl tt
                  refl (refresh_connected (retrieve_out D S n u1)))
        ]

    -- The second write is of what is left.
    first_taken :
        (u : State D) (n : ℕ)
        → (n == length (D.peek_all u.conn.out_buffer).0) ≡ true
        → contents D (D.retrieve n u.conn.out_buffer) ≡ (D.peek_all u.conn.out_buffer).1
    first_taken u n e =
        let (first, end) = D.peek_all u.conn.out_buffer in
        R.contents-retrieve n u.conn.out_buffer
        ∙ ap (λ k. drop k (first ++ end)) ((==_iff n (length first)).0 e)
        ∙ drop_append first end

    pub write_first-Kept : (s : Shared D) → Kept s (write_first D S s)
    unfolding write_first
    write_first-Kept s =
        let u = s.base in
        let (first, end) = D.peek_all u.conn.out_buffer in
        let n = (S.write u.self first u.os).0 in
        let u2 : State D = retrieve_out D S n (record u { os = (S.write u.self first u.os).2 }) in
        elim (Bool-cases (S.write u.self first u.os).1) [
          | inl bad ↦
              rw (bad, write_first)
                (failed refl refl (drop n first ++ end, write-total first end u refl))
          | inr fine ↦ elim (Bool-cases (n == length first)) [
            | inr short ↦
                rw (fine, write_first)
                  (rw (short, write_first)
                    (kept (refresh-total u2 ∙ retrieved-total first end u refl) refl tt refl
                      (refresh_connected u2)))
            | inl took ↦ elim (Bool-cases (is_nil end)) [
              | inl last ↦
                  rw (fine, write_first)
                    (rw (took, write_first)
                      (rw (last, write_first)
                        (kept (refresh-total u2 ∙ retrieved-total first end u refl) refl tt refl
                          (refresh_connected u2))))
              | inr more ↦
                  rw (fine, write_first)
                    (rw (took, write_first)
                      (rw (more, write_first)
                        (kept (retrieved-total first end u refl) refl (first_taken u n took) refl
                          refl)))
            ]
          ]
        ]

    pub send_packet-Sends : (b : Bytes) (s : Shared D) → Sends b s (send_packet D S b s)
    unfolding send_packet
    send_packet-Sends b s =
        let u = s.base in
        let n = (S.write u.self b u.os).0 in
        let u1 : State D = record u { os = (S.write u.self b u.os).2 } in
        elim (Bool-cases (D.is_empty u.conn.out_buffer)) [
          | inr full ↦
              rw (full, send_packet) (added (write_out-all_sent D S R sent W b u) refl refl)
          | inl free ↦
              let nothing = contents_empty D S R sent W u.conn.out_buffer free in
              elim (Bool-cases (S.write u.self b u.os).1) [
                | inl bad ↦
                    rw (free, send_packet)
                      (rw (bad, send_packet)
                        (refused refl refl nothing (
                          waiting D S sent s ++ drop n b,
                          sym (append_assoc (sent u.self u1.os) (waiting D S sent s) (drop n b))
                              ∙ written-all_sent D S R sent W b u free,
                        )))
                | inr fine ↦
                    rw (free, send_packet)
                      (rw (fine, send_packet)
                        (added
                          (keep_unsent-all_sent D S R sent W n b u1 (W.write_le u.self b u.os)
                            ∙ written-all_sent D S R sent W b u free)
                          refl refl))
              ]
        ]
