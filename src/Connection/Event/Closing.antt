-- ===== src/Connection/Event/Closing.antt =====
-- connection.go: the result `closed` of the handlers.
use gev.Base.{
  ℕ, ◌≡◌, true, false, not, ◌&&◌, ◌||◌, arith, inl, inr, Bool-cases, Option, Option-cases, is_nil,
  is_some, length, ◌==◌,
}
use gev.Deps.{Deps, Bytes, Errno, is_eagain}
use gev.EventLoop.{default_packet_size}
use gev.Protocol.{Protocol}
use gev.Connection.{State, Handler}
use gev.Connection.Closed.{handle_close_connected}
use gev.Connection.Read.{deliver, handle_read, read_failed, send_answers, is_again}
use gev.Connection.Send.{send_in_loop, is_fatal}
use gev.Connection.Event.{handle_write, write_end, write_failed, retrieve_out}

module _ (D : Deps) (H : Handler D) where
  pub send_in_loop-closed :
      (b : Bytes) (s : State D)
      → (send_in_loop D H b s).0 ≡ true
      → (send_in_loop D H b s).1.conn.connected ≡ false
  unfolding send_in_loop
  send_in_loop-closed b s h =
      let r = D.write s.conn.fd b s.os in
      let s1 : State D = record s { os = r.2 } in
      elim (Bool-cases (D.is_empty s.conn.out_buffer)) [
        | inr full ↦ absurd (ground arith)
        | inl e ↦ elim (Bool-cases (is_fatal r.1)) [
          | inl fatal ↦
              rw (e, send_in_loop)
                (rw (fatal, send_in_loop) (handle_close_connected D H s.conn.fd s1))
          | inr fine ↦ absurd (ground arith)
        ]
      ]

  write_failed-closed :
      (fd : ℕ) (e : Errno) (s : State D)
      → (write_failed D H fd e s).0 ≡ true
      → (write_failed D H fd e s).1.conn.connected ≡ false
  unfolding write_failed
  write_failed-closed fd e s h = elim (Bool-cases (is_eagain e)) [
    | inl again ↦ absurd (ground arith)
    | inr fatal ↦ rw (fatal, write_failed) (handle_close_connected D H fd s)
  ]

  write_end-closed :
      (fd : ℕ) (end : Bytes) (s : State D)
      → (write_end D H fd end s).0 ≡ true
      → (write_end D H fd end s).1.conn.connected ≡ false
  unfolding write_end
  write_end-closed fd end s h =
      let r = D.write s.conn.fd end s.os in
      let s1 : State D = record s { os = r.2 } in
      elim (Option-cases r.1) [
        | inl fine ↦ absurd (ground arith)
        | inr (e, failed) ↦
            rw (failed, write_end) (write_failed-closed fd e s1 (rw (failed, write_end) at h))
      ]

  pub handle_write-closed :
      (fd : ℕ) (s : State D)
      → (handle_write D H fd s).0 ≡ true
      → (handle_write D H fd s).1.conn.connected ≡ false
  unfolding handle_write
  handle_write-closed fd s h =
      let (first, end) = D.peek_all s.conn.out_buffer in
      let r = D.write s.conn.fd first s.os in
      let s1 : State D = record s { os = r.2 } in
      let s2 = retrieve_out D r.0 s1 in
      elim (Option-cases r.1) [
        | inr (e, failed) ↦
            rw (failed, handle_write) (write_failed-closed fd e s1 (rw (failed, handle_write) at h))
        | inl fine ↦ elim (Bool-cases (r.0 == length first && not (is_nil end))) [
          | inr short ↦ absurd (ground arith)
          | inl wraps ↦
              let h1 = rw (fine, handle_write) at h in
              rw (fine, handle_write)
                (rw (wraps, handle_write)
                  (write_end-closed fd end s2 (rw (wraps, handle_write) at h1)))
        ]
      ]

  read_failed-closed :
      (fd : ℕ) (e : Option Errno) (s : State D)
      → (read_failed D H fd e s).0 ≡ true
      → (read_failed D H fd e s).1.conn.connected ≡ false
  unfolding read_failed
  read_failed-closed fd e s h = elim (Bool-cases (is_again D e)) [
    | inl again ↦ absurd (ground arith)
    | inr fatal ↦ rw (fatal, read_failed) (handle_close_connected D H fd s)
  ]

  send_answers-closed :
      (tmp : Bytes) (s : State D)
      → (send_answers D H (tmp, s)).0 ≡ true
      → (send_answers D H (tmp, s)).1.conn.connected ≡ false
  unfolding send_answers
  send_answers-closed tmp s h = elim (Bool-cases (is_nil tmp)) [
    | inl e ↦ absurd (ground arith)
    | inr e ↦ rw (e, send_answers) (send_in_loop-closed tmp s (rw (e, send_answers) at h))
  ]

  pub handle_read-closed :
      (P : Protocol D) (fd : ℕ) (s : State D)
      → (handle_read D H P fd s).0 ≡ true
      → (handle_read D H P fd s).1.conn.connected ≡ false
  unfolding handle_read
  handle_read-closed P fd s h =
      let r = D.read s.conn.fd default_packet_size s.os in
      let s1 : State D = record s { os = r.2 } in
      let d = deliver D H P r.0 s1 in
      elim (Bool-cases (is_nil r.0 || is_some r.1)) [
        | inl bad ↦
            rw (bad, handle_read) (read_failed-closed fd r.1 s1 (rw (bad, handle_read) at h))
        | inr good ↦
            rw (good, handle_read) (send_answers-closed d.0 d.1 (rw (good, handle_read) at h))
      ]
