-- ===== src/Windows/Stream.antt =====
-- server_std.go: the bytes that a connection is given to send.
use gev.Base.{
  ℕ, ◌≤◌, ◌≡◌, sym, ap, ◌∙◌, true, false, ◌++◌, [], append-nil, append_assoc, arith, length, take,
  drop, take-append-drop, drop_all, inl, inr, Bool-cases, is_nil→[], Option,
}
use gev.Deps.{Deps, Bytes}
use gev.Deps.Laws.{RingLaws, contents}
use gev.Windows.{
  Parts, State, SendTask, send_in_loop, write_out, keep_unsent, close, send, run_send,
}

-- What `net.Conn` promises of `Write`: it takes a prefix of its bytes. `sent` is the stream that it took.
pub record ConnLaws (D : Deps) (S : Parts D) (sent : ℕ → D.Os → Bytes) : Type 0 where
  pub write_le : (c : ℕ) (b : Bytes) (os : D.Os) → (S.write c b os).0 ≤ length b
  pub write_sent :
      (c : ℕ) (b : Bytes) (os : D.Os)
      → sent c (S.write c b os).2 ≡ sent c os ++ take (S.write c b os).0 b

-- All that a connection was given to send.
abbrev pub all_sent : (D : Deps) → (ℕ → D.Os → Bytes) → State D → Bytes
all_sent D sent s = sent s.self s.os ++ contents D s.conn.out_buffer

module _ (D : Deps) (S : Parts D) where
  close_connected : (s : State D) → (close D S s).conn.connected ≡ false
  unfolding close
  close_connected s = ground arith

  -- After `Close` a second `Close` (so a second close of the channel `dying`), and a send that was queued
  -- before, change nothing, and `Send` reports a closed connection and changes nothing.
  pub close_silences :
      (v : D.Data) (f : Option ℕ) (task : SendTask D) (s : State D)
      → let t = close D S s in
        (close D S t ≡ t) × (run_send D S task t ≡ t) × (send D S v f t ≡ (true, t))
  close_silences v f task s = closed (close D S s) (close_connected s)
    where
      closed :
          (t : State D)
          → t.conn.connected ≡ false
          → (close D S t ≡ t) × (run_send D S task t ≡ t) × (send D S v f t ≡ (true, t))
      closed t down = unfold close run_send send in (ground arith, ground arith, ground arith)

  module _ (R : RingLaws D) (sent : ℕ → D.Os → Bytes) (W : ConnLaws D S sent) where
    pub write_out-all_sent :
        (b : Bytes) (s : State D) → all_sent D sent (write_out D S b s) ≡ all_sent D sent s ++ b
    write_out-all_sent b s =
        rw (R.contents-ring_write b s.conn.out_buffer)
          (sym (append_assoc (sent s.self s.os) (contents D s.conn.out_buffer) b))

    pub contents_empty : (r : D.Ring) → D.is_empty r ≡ true → contents D r ≡ []
    contents_empty r e = is_nil→[] (contents D r) (sym (R.is_empty_lem r) ∙ e)

    -- A write from an empty buffer.
    pub written-all_sent :
        (b : Bytes) (s : State D)
        → D.is_empty s.conn.out_buffer ≡ true
        → all_sent D sent (record s { os = (S.write s.self b s.os).2 })
            ++ drop (S.write s.self b s.os).0 b
          ≡ all_sent D sent s ++ b
    written-all_sent b s e =
        let n = (S.write s.self b s.os).0 in
        rw (contents_empty s.conn.out_buffer e, W.write_sent s.self b s.os)
          (simp (append-nil, append_assoc) (ap (λ t. sent s.self s.os ++ t) (take-append-drop n b)))

    pub keep_unsent-all_sent :
        (n : ℕ) (b : Bytes) (s : State D)
        → n ≤ length b
        → all_sent D sent (keep_unsent D S n b s) ≡ all_sent D sent s ++ drop n b
    unfolding keep_unsent
    keep_unsent-all_sent n b s h = ground (
      arith,
      write_out-all_sent b s,
      write_out-all_sent (drop n b) s,
      drop_all n b,
      append-nil (all_sent D sent s),
    )

    -- Unless the connection is closed by a failed write, `sendInLoop` appends its bytes, all of them and
    -- nothing else, to what `net.Conn` took followed by what waits in the write buffer.
    pub send_in_loop-all_sent :
        (b : Bytes) (s : State D)
        → (send_in_loop D S b s).0 ≡ false
        → all_sent D sent (send_in_loop D S b s).1 ≡ all_sent D sent s ++ b
    unfolding send_in_loop
    send_in_loop-all_sent b s still =
        let s1 : State D = record s { os = (S.write s.self b s.os).2 } in
        elim (Bool-cases (D.is_empty s.conn.out_buffer)) [
          | inr full ↦ rw (full, send_in_loop) (write_out-all_sent b s)
          | inl e ↦ elim (Bool-cases (S.write s.self b s.os).1) [
            | inl fatal ↦ absurd (ground arith)
            | inr fine ↦
                rw (e, send_in_loop)
                  (rw (fine, send_in_loop)
                    (keep_unsent-all_sent (S.write s.self b s.os).0 b s1 (W.write_le s.self b s.os)
                      ∙ written-all_sent b s e))
          ]
        ]
