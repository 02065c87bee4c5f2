-- ===== src/Connection/Event/Flow.antt =====
-- connection.go: `handleWrite`, and the bytes that wait in the write buffer.
use gev.Base.{
  ℕ, ◌≡◌, refl, sym, ap, ◌∙◌, false, not, ◌&&◌, ◌++◌, [], append-nil, append_assoc, arith, length,
  take, drop, ◌==◌, take-append-drop, drop_all, drop-append_left, inl, inr, Bool-cases, some,
  Option-cases, is_nil,
}
use gev.Deps.{Deps, Bytes, Errno}
use gev.Deps.Laws.{RingLaws, WriteLaws, contents}
use gev.EventLoop
use gev.Poller.Epoll
use gev.Connection.{State, Handler}
use gev.Connection.Event.{handle_write, write_end, write_failed, watch_readable, retrieve_out}
use gev.Connection.Send.Stream.{stream}

module _ (D : Deps) (R : RingLaws D) (sent : ℕ → D.Os → Bytes) (W : WriteLaws D sent) where
  watch_readable-stream :
      (fd : ℕ) (s : State D) → stream D sent (watch_readable D fd s) ≡ stream D sent s
  unfolding watch_readable EventLoop.enable_read Epoll.enable_read
  watch_readable-stream fd s = elim (Bool-cases (D.is_empty s.conn.out_buffer)) [
    | inr e ↦ rw (e, watch_readable)
    | inl e ↦
        rw (e, watch_readable)
          (ap (λ t. t ++ contents D s.conn.out_buffer) (W.epoll_ctl_sent _ _ _ _ _ _))
  ]

  -- A write of the first bytes of the buffer, and the `Retrieve` of what was taken.
  step-stream :
      (b rest : Bytes) (s : State D)
      → contents D s.conn.out_buffer ≡ b ++ rest
      → let n = (D.write s.conn.fd b s.os).0 in
        let s1 : State D = record s { os = (D.write s.conn.fd b s.os).2 } in
        (stream D sent (retrieve_out D n s1) ≡ stream D sent s)
        × (contents D (retrieve_out D n s1).conn.out_buffer ≡ drop n b ++ rest)
  step-stream b rest s e =
      let n = (D.write s.conn.fd b s.os).0 in
      let sofar = sent s.conn.fd s.os in
      let left : drop n (b ++ rest) ≡ drop n b ++ rest =
        drop-append_left n b rest (W.write_le s.conn.fd b s.os) in
      (
        rw (W.write_sent s.conn.fd b s.os, R.contents-retrieve n s.conn.out_buffer, e, left)
            (append_assoc sofar (take n b) (drop n b ++ rest)
              ∙ ap (λ t. sofar ++ t)
                  (sym (append_assoc (take n b) (drop n b) rest)
                    ∙ ap (λ t. t ++ rest) (take-append-drop n b))),
        R.contents-retrieve n s.conn.out_buffer ∙ ap (drop n) e ∙ left,
      )

  -- A failed write changes nothing of the stream.
  failed-stream :
      (b : Bytes) (s : State D) (e : Errno)
      → (D.write s.conn.fd b s.os).1 ≡ some e
      → stream D sent (record s { os = (D.write s.conn.fd b s.os).2 }) ≡ stream D sent s
  failed-stream b s e h =
      let fd = s.conn.fd in
      rw (W.write_sent fd b s.os, W.write_err fd b s.os e h)
        (ap (λ t. t ++ contents D s.conn.out_buffer) (append-nil (sent fd s.os)))

  write_failed-stream :
      (H : Handler D) (fd : ℕ) (e : Errno) (s : State D)
      → (write_failed D H fd e s).0 ≡ false
      → (write_failed D H fd e s).1 ≡ s
  unfolding write_failed
  write_failed-stream H fd e s h = ground arith

  write_end-stream :
      (H : Handler D) (fd : ℕ) (end : Bytes) (s : State D)
      → contents D s.conn.out_buffer ≡ end
      → (write_end D H fd end s).0 ≡ false
      → stream D sent (write_end D H fd end s).1 ≡ stream D sent s
  unfolding write_end
  write_end-stream H fd end s c h =
      let r = D.write s.conn.fd end s.os in
      let s1 : State D = record s { os = r.2 } in
      elim (Option-cases r.1) [
        | inl fine ↦
            rw (fine, write_end)
              (watch_readable-stream fd (retrieve_out D r.0 s1)
                ∙ (step-stream end [] s (c ∙ sym (append-nil end))).0)
        | inr (e, failed) ↦
            let same = write_failed-stream H fd e s1 (rw (failed, write_end) at h) in
            rw (failed, write_end) (ap (stream D sent) same ∙ failed-stream end s e failed)
      ]

  -- Unless it closes the connection, `handleWrite` keeps the stream of the connection as it is: what the
  -- kernel takes, in one write or in two where the buffer wraps, is what leaves the write buffer, from
  -- its front.
  pub handle_write-stream :
      (H : Handler D) (fd : ℕ) (s : State D)
      → (handle_write D H fd s).0 ≡ false
      → stream D sent (handle_write D H fd s).1 ≡ stream D sent s
  unfolding handle_write
  handle_write-stream H fd s h =
      let (first, end) = D.peek_all s.conn.out_buffer in
      let r = D.write s.conn.fd first s.os in
      let s1 : State D = record s { os = r.2 } in
      let s2 = retrieve_out D r.0 s1 in
      let stepped = step-stream first end s refl in
      elim (Option-cases r.1) [
        | inr (e, failed) ↦
            let same = write_failed-stream H fd e s1 (rw (failed, handle_write) at h) in
            rw (failed, handle_write) (ap (stream D sent) same ∙ failed-stream first s e failed)
        | inl fine ↦ elim (Bool-cases (r.0 == length first && not (is_nil end))) [
          | inr short ↦
              rw (fine, handle_write)
                (rw (short, handle_write) (watch_readable-stream fd s2 ∙ stepped.0))
          | inl wraps ↦
              let whole : r.0 ≡ length first = ground arith in
              let gone : drop r.0 first ≡ [] = drop_all r.0 first (omega arith) in
              let closed = rw (fine, handle_write) at h in
              rw (fine, handle_write)
                (rw (wraps, handle_write)
                  (write_end-stream H fd end s2 (stepped.1 ∙ ap (λ t. t ++ end) gone)
                      (rw (wraps, handle_write) at closed)
                    ∙ stepped.0))
        ]
      ]
