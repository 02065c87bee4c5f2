-- ===== src/Connection/Send/Stream.antt =====
-- connection.go: the bytes that `sendInLoop` takes, in the kernel and in the write buffer.
use gev.Base.{
  ℕ, ◌≤◌, ◌≡◌, sym, ap, ◌∙◌, true, false, ◌++◌, [], append-nil, append_assoc, arith, length, drop,
  take-append-drop, drop_all, inl, inr, Bool-cases, is_nil→[],
}
use gev.Deps.{Deps, Bytes}
use gev.Deps.Laws.{RingLaws, WriteLaws, contents}
use gev.EventLoop
use gev.Poller.Epoll
use gev.Connection.{State, Handler}
use gev.Connection.Send.{send_in_loop, keep_unsent, write_out_buffer, watch_writable, is_fatal}

-- All that a connection was given to send: what the kernel took, and what waits in the write buffer.
abbrev pub stream : (D : Deps) → (ℕ → D.Os → Bytes) → State D → Bytes
stream D sent s = sent s.conn.fd s.os ++ contents D s.conn.out_buffer

module _ (D : Deps) (R : RingLaws D) (sent : ℕ → D.Os → Bytes) (W : WriteLaws D sent) where
  write_out_buffer-stream :
      (b : Bytes) (s : State D) → stream D sent (write_out_buffer D b s) ≡ stream D sent s ++ b
  unfolding write_out_buffer
  write_out_buffer-stream b s =
      rw (R.contents-ring_write b s.conn.out_buffer)
        (sym (append_assoc (sent s.conn.fd s.os) (contents D s.conn.out_buffer) b))

  keep_unsent-stream :
      (n : ℕ) (b : Bytes) (s : State D)
      → n ≤ length b
      → stream D sent (keep_unsent D n b s) ≡ stream D sent s ++ drop n b
  unfolding keep_unsent
  keep_unsent-stream n b s h = ground (
    arith,
    write_out_buffer-stream b s,
    write_out_buffer-stream (drop n b) s,
    drop_all n b,
    append-nil (stream D sent s),
  )

  watch_writable-stream : (s : State D) → stream D sent (watch_writable D s) ≡ stream D sent s
  unfolding watch_writable EventLoop.enable_read_write Epoll.enable_read_write
  watch_writable-stream s = elim (Bool-cases (D.is_empty s.conn.out_buffer)) [
    | inl e ↦ rw (e, watch_writable)
    | inr e ↦
        rw (e, watch_writable)
          (ap (λ t. t ++ contents D s.conn.out_buffer) (W.epoll_ctl_sent _ _ _ _ _ _))
  ]

  contents_of_empty : (r : D.Ring) → D.is_empty r ≡ true → contents D r ≡ []
  contents_of_empty r e = is_nil→[] (contents D r) (sym (R.is_empty_lem r) ∙ e)

  -- A write straight from an empty buffer.
  written-stream :
      (b : Bytes) (s : State D)
      → D.is_empty s.conn.out_buffer ≡ true
      → let n = (D.write s.conn.fd b s.os).0 in
        stream D sent (record s { os = (D.write s.conn.fd b s.os).2 }) ++ drop n b
        ≡ stream D sent s ++ b
  written-stream b s e =
      let n = (D.write s.conn.fd b s.os).0 in
      let sofar = sent s.conn.fd s.os in
      rw (contents_of_empty s.conn.out_buffer e, W.write_sent s.conn.fd b s.os)
        (simp (append-nil, append_assoc) (ap (λ t. sofar ++ t) (take-append-drop n b)))

  -- Unless the connection is closed by a failed write, `sendInLoop` appends its bytes, all of them and
  -- nothing else, to the stream of the connection: what the kernel took for its descriptor, followed by
  -- what waits in the write buffer. Whatever the kernel took of them is not kept, whatever it did not
  -- take is.
  pub send_in_loop-stream :
      (H : Handler D) (b : Bytes) (s : State D)
      → (send_in_loop D H b s).0 ≡ false
      → stream D sent (send_in_loop D H b s).1 ≡ stream D sent s ++ b
  unfolding send_in_loop
  send_in_loop-stream H b s open_still =
      let n = (D.write s.conn.fd b s.os).0 in
      let s1 : State D = record s { os = (D.write s.conn.fd b s.os).2 } in
      elim (Bool-cases (D.is_empty s.conn.out_buffer)) [
        | inr full ↦ rw (full, send_in_loop) (write_out_buffer-stream b s)
        | inl e ↦ elim (Bool-cases (is_fatal (D.write s.conn.fd b s.os).1)) [
          | inl fatal ↦ absurd (ground arith)
          | inr fine ↦
              rw (e, send_in_loop)
                (rw (fine, send_in_loop)
                  (watch_writable-stream (keep_unsent D n b s1)
                    ∙ keep_unsent-stream n b s1 (W.write_le s.conn.fd b s.os)
                    ∙ written-stream b s e))
        ]
      ]
