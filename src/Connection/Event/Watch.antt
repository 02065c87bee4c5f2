-- ===== src/Connection/Event/Watch.antt =====
-- connection.go: the events that epoll watches for a connection, and `sendInLoop`.
use gev.Base.{
  ℕ, ◌≡◌, refl, sym, ◌∙◌, false, ◌++◌, List, [], ◌∷◌, arith, inl, inr, Bool-cases, Option, some,
  is_nil, if◌then◌else◌, bit_or,
}
use gev.Deps.{Deps, Bytes}
use gev.Deps.Laws.{RingLaws, EpollLaws, contents}
use gev.EventLoop
use gev.Poller.Epoll
use gev.Poller.Epoll.{read_event, write_event, wake_bytes}
use gev.Connection.{
  State, Handler, Call, call_send, call_close, call_shutdown_write, call_set_context, call_set,
  call_delete, call_other,
}
use gev.Connection.Close.{perform, perform_all}
use gev.Connection.Send.{send_in_loop, keep_unsent, write_out_buffer, watch_writable, is_fatal}

-- Epoll watches the connection for reading, and for writing too exactly when bytes wait to be sent.
abbrev pub IsWatched : (D : Deps) → (ℕ → ℕ → D.Os → Option ℕ) → State D → Type 0
IsWatched D watched s =
    watched s.loop.poll.fd s.conn.fd s.os
    ≡ some (if D.is_empty s.conn.out_buffer then read_event else bit_or read_event write_event)

module _ (D : Deps) (R : RingLaws D) (watched : ℕ → ℕ → D.Os → Option ℕ)
    (E : EpollLaws D watched) where
  perform-watched :
      (ep fd : ℕ) (c : Call D) (s : State D) → watched ep fd (perform D c s).os ≡ watched ep fd s.os
  unfolding perform EventLoop.queue_in_loop Epoll.wake
  perform-watched ep fd (call_send v f) s =
      ground (arith, E.write_watched ep fd s.loop.poll.event_fd wake_bytes s.os)
  perform-watched ep fd call_close s =
      ground (arith, E.write_watched ep fd s.loop.poll.event_fd wake_bytes s.os)
  perform-watched ep fd call_shutdown_write s = E.shutdown_watched ep fd s.conn.fd s.os
  perform-watched ep fd (call_set_context v) s = refl
  perform-watched ep fd (call_set k v) s = refl
  perform-watched ep fd (call_delete k) s = refl
  perform-watched ep fd (call_other t) s =
      ground (arith, E.write_watched ep fd s.loop.poll.event_fd wake_bytes s.os)

  pub perform_all-watched :
      (ep fd : ℕ) (cs : List (Call D)) (s : State D)
      → watched ep fd (perform_all D cs s).os ≡ watched ep fd s.os
  unfolding perform_all
  perform_all-watched ep fd [] s = refl
  perform_all-watched ep fd (c ∷ cs) s =
      perform_all-watched ep fd cs (perform D c s) ∙ perform-watched ep fd c s

  -- A write to a ring leaves it full if it was.
  is_empty-ring_write :
      (b : Bytes) (r : D.Ring) → D.is_empty r ≡ false → D.is_empty (D.ring_write b r) ≡ false
  is_empty-ring_write b r h =
      rw (R.is_empty_lem (D.ring_write b r), R.contents-ring_write b r)
        (go (contents D r) (sym (R.is_empty_lem r) ∙ h))
    where
      go : (xs : Bytes) → is_nil xs ≡ false → is_nil (xs ++ b) ≡ false
      go [] e = cc
      go (x ∷ xs) e = refl

  -- With a registered descriptor `watch_writable` makes the two agree again.
  watch_writable-IsWatched :
      (s : State D)
      → watched s.loop.poll.fd s.conn.fd s.os ≡ some read_event
      → IsWatched D watched (watch_writable D s)
  unfolding watch_writable EventLoop.enable_read_write Epoll.enable_read_write
  watch_writable-IsWatched s h =
      let ep = s.loop.poll.fd in
      let rw_events = bit_or read_event write_event in
      elim (Bool-cases (D.is_empty s.conn.out_buffer)) [
        | inl e ↦ rw (e, watch_writable) (rw e h)
        | inr e ↦
            rw (e, watch_writable)
              (rw e (
                E.ctl_mod_lem ep s.conn.fd rw_events s.os
                  (E.ctl_mod_ok ep s.conn.fd rw_events read_event s.os h)))
      ]

  keep_unsent-watched :
      (n : ℕ) (b : Bytes) (s : State D)
      → let t = keep_unsent D n b s in
        watched t.loop.poll.fd t.conn.fd t.os ≡ watched s.loop.poll.fd s.conn.fd s.os
  unfolding keep_unsent write_out_buffer
  keep_unsent-watched n b s = ground arith

  -- While the connection is open, `sendInLoop` keeps what epoll watches in step with the write buffer.
  pub send_in_loop-IsWatched :
      (H : Handler D) (b : Bytes) (s : State D)
      → IsWatched D watched s
      → (send_in_loop D H b s).0 ≡ false
      → IsWatched D watched (send_in_loop D H b s).1
  unfolding send_in_loop write_out_buffer
  send_in_loop-IsWatched H b s h still =
      let r = D.write s.conn.fd b s.os in
      let s1 : State D = record s { os = r.2 } in
      elim (Bool-cases (D.is_empty s.conn.out_buffer)) [
        | inr full ↦
            rw (full, send_in_loop)
              (rw (is_empty-ring_write b s.conn.out_buffer full) (rw full at h))
        | inl e ↦ elim (Bool-cases (is_fatal r.1)) [
          | inl fatal ↦ absurd (ground arith)
          | inr fine ↦
              rw (e, send_in_loop)
                (rw (fine, send_in_loop)
                  (watch_writable-IsWatched (keep_unsent D r.0 b s1) (
                    keep_unsent-watched r.0 b s1
                    ∙ E.write_watched s.loop.poll.fd s.conn.fd s.conn.fd b s.os
                    ∙ (rw e at h))))
        ]
      ]
