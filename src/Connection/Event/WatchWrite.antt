-- ===== src/Connection/Event/WatchWrite.antt =====
-- connection.go: `handleWrite`, and what epoll watches.
use gev.Base.{
  ℕ, ◌≡◌, ap, ◌∙◌, false, not, ◌&&◌, arith, inl, inr, Bool-cases, Option, Option-cases, some,
  is_nil, bit_or, length, ◌==◌, drop, drop_append,
}
use gev.Deps.{Deps, Bytes, Errno, is_eagain}
use gev.Deps.Laws.{RingLaws, EpollLaws, contents}
use gev.EventLoop
use gev.EventLoop.{default_packet_size}
use gev.Poller.Epoll
use gev.Poller.Epoll.{read_event, write_event}
use gev.Connection.{State, Handler}
use gev.Connection.Event.{handle_write, write_end, write_failed, watch_readable, retrieve_out}
use gev.Connection.Event.Watch.{IsWatched}

module _ (D : Deps) (R : RingLaws D) (watched : ℕ → ℕ → D.Os → Option ℕ) (E : EpollLaws D watched)
    (H : Handler D) where
  watch_readable-IsWatched :
      (s : State D)
      → watched s.loop.poll.fd s.conn.fd s.os ≡ some (bit_or read_event write_event)
      → IsWatched D watched (watch_readable D s.conn.fd s)
  unfolding watch_readable EventLoop.enable_read Epoll.enable_read
  watch_readable-IsWatched s h =
      let ep = s.loop.poll.fd in
      elim (Bool-cases (D.is_empty s.conn.out_buffer)) [
        | inr e ↦ rw (e, watch_readable) (rw e h)
        | inl e ↦
            rw (e, watch_readable)
              (rw e (
                E.ctl_mod_lem ep s.conn.fd read_event s.os
                  (E.ctl_mod_ok ep s.conn.fd read_event (bit_or read_event write_event) s.os h)))
      ]

  -- The same from any state that epoll watches for both.
  write_failed-IsWatched :
      (fd : ℕ) (e : Errno) (s : State D)
      → IsWatched D watched s
      → (write_failed D H fd e s).0 ≡ false
      → IsWatched D watched (write_failed D H fd e s).1
  unfolding write_failed
  write_failed-IsWatched fd e s h still = elim (Bool-cases (is_eagain e)) [
    | inl again ↦ rw (again, write_failed) h
    | inr fatal ↦ absurd (ground arith)
  ]

  abbrev BothWatched : State D → Type 0
  BothWatched s = watched s.loop.poll.fd s.conn.fd s.os ≡ some (bit_or read_event write_event)

  after_write-BothWatched :
      (b : Bytes) (s : State D)
      → BothWatched s
      → BothWatched (record s { os = (D.write s.conn.fd b s.os).2 })
  after_write-BothWatched b s h = E.write_watched s.loop.poll.fd s.conn.fd s.conn.fd b s.os ∙ h

  full-IsWatched :
      (s : State D) → D.is_empty s.conn.out_buffer ≡ false → BothWatched s → IsWatched D watched s
  full-IsWatched s full h = rw full h

  write_end-IsWatched :
      (end : Bytes) (s : State D)
      → D.is_empty s.conn.out_buffer ≡ false
      → BothWatched s
      → (write_end D H s.conn.fd end s).0 ≡ false
      → IsWatched D watched (write_end D H s.conn.fd end s).1
  unfolding write_end
  write_end-IsWatched end s full h still =
      let r = D.write s.conn.fd end s.os in
      let s1 : State D = record s { os = r.2 } in
      let h1 = after_write-BothWatched end s h in
      elim (Option-cases r.1) [
        | inl fine ↦ rw (fine, write_end) (watch_readable-IsWatched (retrieve_out D r.0 s1) h1)
        | inr (e, failed) ↦
            rw (failed, write_end)
              (write_failed-IsWatched s.conn.fd e s1 (full-IsWatched s1 full h1)
                (rw (failed, write_end) at still))
      ]

  -- After a write of the whole first part the second one is left.
  rest_full :
      (r : D.Ring) (n : ℕ)
      → n ≡ length (D.peek_all r).0
      → is_nil (D.peek_all r).1 ≡ false
      → D.is_empty (D.retrieve n r) ≡ false
  rest_full r n e some_left =
      R.is_empty_lem (D.retrieve n r)
      ∙ ap is_nil (
          R.contents-retrieve n r
          ∙ ap (λ k. drop k (contents D r)) e
          ∙ drop_append (D.peek_all r).0 (D.peek_all r).1)
      ∙ some_left

  pub handle_write-IsWatched :
      (s : State D)
      → D.is_empty s.conn.out_buffer ≡ false
      → IsWatched D watched s
      → (handle_write D H s.conn.fd s).0 ≡ false
      → IsWatched D watched (handle_write D H s.conn.fd s).1
  unfolding handle_write
  handle_write-IsWatched s full h still =
      let (first, end) = D.peek_all s.conn.out_buffer in
      let r = D.write s.conn.fd first s.os in
      let s1 : State D = record s { os = r.2 } in
      let s2 = retrieve_out D r.0 s1 in
      let h1 : BothWatched s1 = after_write-BothWatched first s (rw full at h) in
      elim (Option-cases r.1) [
        | inr (e, failed) ↦
            rw (failed, handle_write)
              (write_failed-IsWatched s.conn.fd e s1 (full-IsWatched s1 full h1)
                (rw (failed, handle_write) at still))
        | inl fine ↦ elim (Bool-cases (r.0 == length first && not (is_nil end))) [
          | inr short ↦
              rw (fine, handle_write) (rw (short, handle_write) (watch_readable-IsWatched s2 h1))
          | inl wraps ↦
              let still1 = rw (fine, handle_write) at still in
              rw (fine, handle_write)
                (rw (wraps, handle_write)
                  (write_end-IsWatched end s2
                    (rest_full s.conn.out_buffer r.0 (ground arith) (ground arith)) h1
                    (rw (wraps, handle_write) at still1)))
        ]
      ]
