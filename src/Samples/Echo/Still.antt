-- ===== src/Samples/Echo/Still.antt =====
-- connection.go: what `sendInLoop` and `handleWrite` leave alone of what a connection reads.
use gev.Base.{
  ℕ, ◌≡◌, refl, sym, ap, ◌∙◌, false, not, ◌&&◌, arith, inl, inr, Bool-cases, Option-cases, is_nil,
  length, ◌==◌,
}
use gev.Deps.{Deps, Bytes, Errno, is_eagain}
use gev.Deps.Laws.{ReadLaws}
use gev.EventLoop
use gev.Poller.Epoll
use gev.Connection.{State, Handler}
use gev.Connection.Send.{send_in_loop, is_fatal, keep_unsent, watch_writable, write_out_buffer}
use gev.Connection.Event.{handle_write, write_end, write_failed, watch_readable, retrieve_out}

module _ (D : Deps) (sent received : ℕ → D.Os → Bytes) (L : ReadLaws D sent received) where
  -- What writing leaves alone.
  pub record Still (s t : State D) : Type 0 where
    pub still_in : t.conn.in_buffer ≡ s.conn.in_buffer
    pub still_fd : t.conn.fd ≡ s.conn.fd
    pub still_received : received s.conn.fd t.os ≡ received s.conn.fd s.os

  Still-refl : (s : State D) → Still s s
  Still-refl s = record { still_in = refl; still_fd = refl; still_received = refl }

  pub Still-trans : {s t u : State D} → Still s t → Still t u → Still s u
  Still-trans {s} {t} {u} h k = record {
    still_in = k.still_in ∙ h.still_in;
    still_fd = k.still_fd ∙ h.still_fd;
    still_received =
        ap (λ fd. received fd u.os) (sym h.still_fd)
        ∙ k.still_received
        ∙ ap (λ fd. received fd t.os) h.still_fd
        ∙ h.still_received;
  }

  written-Still :
      (b : Bytes) (s : State D) → Still s (record s { os = (D.write s.conn.fd b s.os).2 })
  written-Still b s = record {
    still_in = refl;
    still_fd = refl;
    still_received = L.write_received s.conn.fd s.conn.fd b s.os;
  }

  module _ (H : Handler D) where
    keep_unsent-Still : (n : ℕ) (b : Bytes) (s : State D) → Still s (keep_unsent D n b s)
    unfolding keep_unsent write_out_buffer
    keep_unsent-Still n b s = ground arith

    watch_writable-Still : (s : State D) → Still s (watch_writable D s)
    unfolding watch_writable EventLoop.enable_read_write Epoll.enable_read_write
    watch_writable-Still s = elim (Bool-cases (D.is_empty s.conn.out_buffer)) [
      | inl e ↦ rw (e, watch_writable) (Still-refl s)
      | inr e ↦
          rw (e, watch_writable)
            (record {
              still_in = refl;
              still_fd = refl;
              still_received = L.epoll_ctl_received _ _ _ _ _ _;
            })
    ]

    watch_readable-Still : (fd : ℕ) (s : State D) → Still s (watch_readable D fd s)
    unfolding watch_readable EventLoop.enable_read Epoll.enable_read
    watch_readable-Still fd s = elim (Bool-cases (D.is_empty s.conn.out_buffer)) [
      | inr e ↦ rw (e, watch_readable) (Still-refl s)
      | inl e ↦
          rw (e, watch_readable)
            (record {
              still_in = refl;
              still_fd = refl;
              still_received = L.epoll_ctl_received _ _ _ _ _ _;
            })
    ]

    pub send_in_loop-Still :
        (b : Bytes) (s : State D)
        → (send_in_loop D H b s).0 ≡ false
        → Still s (send_in_loop D H b s).1
    unfolding send_in_loop write_out_buffer
    send_in_loop-Still b s h =
        let r = D.write s.conn.fd b s.os in
        let s1 : State D = record s { os = r.2 } in
        elim (Bool-cases (D.is_empty s.conn.out_buffer)) [
          | inr full ↦
              rw (full, send_in_loop)
                (record { still_in = refl; still_fd = refl; still_received = refl })
          | inl e ↦ elim (Bool-cases (is_fatal r.1)) [
            | inl fatal ↦ absurd (ground arith)
            | inr fine ↦
                rw (e, send_in_loop)
                  (rw (fine, send_in_loop)
                    (Still-trans (written-Still b s) (
                      Still-trans (keep_unsent-Still r.0 b s1)
                        (watch_writable-Still (keep_unsent D r.0 b s1)))))
          ]
        ]

    retrieved-Still :
        (b : Bytes) (n : ℕ) (s : State D)
        → Still s (retrieve_out D n (record s { os = (D.write s.conn.fd b s.os).2 }))
    retrieved-Still b n s = record {
      still_in = refl;
      still_fd = refl;
      still_received = L.write_received s.conn.fd s.conn.fd b s.os;
    }

    write_failed-Still :
        (fd : ℕ) (e : Errno) (s : State D)
        → (write_failed D H fd e s).0 ≡ false
        → Still s (write_failed D H fd e s).1
    unfolding write_failed
    write_failed-Still fd e s h = elim (Bool-cases (is_eagain e)) [
      | inl again ↦ rw (again, write_failed) (Still-refl s)
      | inr fatal ↦ absurd (ground arith)
    ]

    write_end-Still :
        (fd : ℕ) (end : Bytes) (s : State D)
        → (write_end D H fd end s).0 ≡ false
        → Still s (write_end D H fd end s).1
    unfolding write_end
    write_end-Still fd end s h =
        let r = D.write s.conn.fd end s.os in
        let s1 : State D = record s { os = r.2 } in
        elim (Option-cases r.1) [
          | inr (e, failed) ↦
              rw (failed, write_end)
                (Still-trans (written-Still end s)
                  (write_failed-Still fd e s1 (rw (failed, write_end) at h)))
          | inl fine ↦
              rw (fine, write_end)
                (Still-trans (retrieved-Still end r.0 s)
                  (watch_readable-Still fd (retrieve_out D r.0 s1)))
        ]

    pub handle_write-Still :
        (fd : ℕ) (s : State D)
        → (handle_write D H fd s).0 ≡ false
        → Still s (handle_write D H fd s).1
    unfolding handle_write
    handle_write-Still fd s h =
        let (first, end) = D.peek_all s.conn.out_buffer in
        let r = D.write s.conn.fd first s.os in
        let s1 : State D = record s { os = r.2 } in
        let s2 = retrieve_out D r.0 s1 in
        let less = retrieved-Still first r.0 s in
        elim (Option-cases r.1) [
          | inr (e, failed) ↦
              rw (failed, handle_write)
                (Still-trans (written-Still first s)
                  (write_failed-Still fd e s1 (rw (failed, handle_write) at h)))
          | inl fine ↦ elim (Bool-cases (r.0 == length first && not (is_nil end))) [
            | inr short ↦
                rw (fine, handle_write)
                  (rw (short, handle_write) (Still-trans less (watch_readable-Still fd s2)))
            | inl wraps ↦
                let h1 = rw (fine, handle_write) at h in
                rw (fine, handle_write)
                  (rw (wraps, handle_write)
                    (Still-trans less (write_end-Still fd end s2 (rw (wraps, handle_write) at h1))))
          ]
        ]
