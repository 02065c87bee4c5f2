-- ===== src/Connection/Event/WatchRead.antt =====
-- connection.go: `handleRead`, and what epoll watches.
use gev.Base.{
  ℕ, zero, suc, ◌≡◌, refl, ◌∙◌, false, ◌++◌, [], arith, inl, inr, Bool-cases, Option, is_nil,
  is_some, ◌||◌,
}
use gev.Deps.{Deps, Bytes, Errno}
use gev.Deps.Laws.{RingLaws, EpollLaws}
use gev.EventLoop.{default_packet_size}
use gev.Protocol.{Protocol, is_message}
use gev.Connection.{State, Handler, Unpacked}
use gev.Connection.Read.{
  Source, fresh, pending, after_un_packet, call_un_packet, on_message, protocol_loop,
  handler_protocol, deliver, keep_rest, handle_read, read_failed, send_answers, is_again,
}
use gev.Connection.Read.Frame.{handler_protocol-Holds}
use gev.Connection.Event.Watch.{IsWatched, perform_all-watched, send_in_loop-IsWatched}

module _ (D : Deps) (R : RingLaws D) (watched : ℕ → ℕ → D.Os → Option ℕ) (E : EpollLaws D watched)
    (H : Handler D) (P : Protocol D) where
  after_un_packet-watched :
      (ep fd : ℕ) (source : Source) (u : Unpacked D) (s : State D)
      → watched ep fd (after_un_packet D source u s).os ≡ watched ep fd s.os
  unfolding after_un_packet
  after_un_packet-watched ep fd source u s = perform_all-watched D R watched E ep fd u.calls _

  on_message-watched :
      (ep fd : ℕ) (u : Unpacked D) (s : State D)
      → watched ep fd (on_message D H P u s).1.os ≡ watched ep fd s.os
  unfolding on_message
  on_message-watched ep fd u s = perform_all-watched D R watched E ep fd _ _

  protocol_loop-watched :
      (ep fd fuel : ℕ) (source : Source) (tmp : Bytes) (s : State D)
      → watched ep fd (protocol_loop D fuel H P source tmp s).1.os ≡ watched ep fd s.os
  unfolding protocol_loop
  protocol_loop-watched ep fd zero source tmp s = refl
  protocol_loop-watched ep fd (suc fuel) source tmp s =
      let u = call_un_packet D P source s in
      let s1 = after_un_packet D source u s in
      let m = on_message D H P u s1 in
      let first = after_un_packet-watched ep fd source u s in
      elim (Bool-cases (is_message u)) [
        | inl more ↦
            rw (more, protocol_loop)
              (protocol_loop-watched ep fd fuel source (tmp ++ m.0) m.1
                ∙ on_message-watched ep fd u s1
                ∙ first)
        | inr done ↦ rw (done, protocol_loop) first
      ]

  handler_protocol-watched :
      (ep fd : ℕ) (source : Source) (s : State D)
      → watched ep fd (handler_protocol D H P source s).1.os ≡ watched ep fd s.os
  unfolding handler_protocol
  handler_protocol-watched ep fd source s = protocol_loop-watched ep fd _ source [] s

  -- The predicate in terms of what it reads.
  pub IsWatched-holds :
      (s t : State D)
      → t.loop.poll ≡ s.loop.poll
      → t.conn.fd ≡ s.conn.fd
      → t.conn.out_buffer ≡ s.conn.out_buffer
      → watched s.loop.poll.fd s.conn.fd t.os ≡ watched s.loop.poll.fd s.conn.fd s.os
      → IsWatched D watched s
      → IsWatched D watched t
  IsWatched-holds s t p f o w h = rw (p, f, o) (w ∙ h)

  deliver-IsWatched :
      (b : Bytes) (s : State D) → IsWatched D watched s → IsWatched D watched (deliver D H P b s).1
  unfolding deliver keep_rest
  deliver-IsWatched b s h =
      let c = s.conn in
      let f : State D = record s { conn = record c { buffer = D.with_data b c.buffer } } in
      let p : State D = record s { conn = record c { in_buffer = D.ring_write b c.in_buffer } } in
      let hf = handler_protocol-Holds D H P fresh f in
      let hp = handler_protocol-Holds D H P pending p in
      let wf = handler_protocol-watched s.loop.poll.fd c.fd fresh f in
      let wp = handler_protocol-watched s.loop.poll.fd c.fd pending p in
      elim (Bool-cases (D.is_empty c.in_buffer)) [
        | inr later ↦
            rw (later, deliver)
              (IsWatched-holds s (handler_protocol D H P pending p).1 hp.hold_poll hp.hold_fd
                hp.hold_out_buffer wp h)
        | inl now ↦
            rw (now, deliver)
              (kept (handler_protocol D H P fresh f).1 (
                IsWatched-holds s (handler_protocol D H P fresh f).1 hf.hold_poll hf.hold_fd
                  hf.hold_out_buffer wf h))
      ]
    where
      kept : (t : State D) → IsWatched D watched t → IsWatched D watched (keep_rest D t)
      kept t k = elim (Bool-cases (D.is_empty t.conn.buffer)) [
        | inl e ↦ rw (e, keep_rest) k
        | inr e ↦ rw (e, keep_rest) k
      ]

  read_failed-IsWatched :
      (fd : ℕ) (e : Option Errno) (s : State D)
      → IsWatched D watched s
      → (read_failed D H fd e s).0 ≡ false
      → IsWatched D watched (read_failed D H fd e s).1
  unfolding read_failed
  read_failed-IsWatched fd e s h still = elim (Bool-cases (is_again D e)) [
    | inl again ↦ rw (again, read_failed) h
    | inr fatal ↦ absurd (ground arith)
  ]

  send_answers-IsWatched :
      (tmp : Bytes) (s : State D)
      → IsWatched D watched s
      → (send_answers D H (tmp, s)).0 ≡ false
      → IsWatched D watched (send_answers D H (tmp, s)).1
  unfolding send_answers
  send_answers-IsWatched tmp s h still = elim (Bool-cases (is_nil tmp)) [
    | inl e ↦ rw (e, send_answers) h
    | inr e ↦
        rw (e, send_answers)
          (send_in_loop-IsWatched D R watched E H tmp s h (rw (e, send_answers) at still))
  ]

  pub handle_read-IsWatched :
      (fd : ℕ) (s : State D)
      → IsWatched D watched s
      → (handle_read D H P fd s).0 ≡ false
      → IsWatched D watched (handle_read D H P fd s).1
  unfolding handle_read
  handle_read-IsWatched fd s h still =
      let r = D.read s.conn.fd default_packet_size s.os in
      let s1 : State D = record s { os = r.2 } in
      let h1 : IsWatched D watched s1 =
        E.read_watched s.loop.poll.fd s.conn.fd s.conn.fd default_packet_size s.os ∙ h in
      let d = deliver D H P r.0 s1 in
      elim (Bool-cases (is_nil r.0 || is_some r.1)) [
        | inl bad ↦
            rw (bad, handle_read)
              (read_failed-IsWatched fd r.1 s1 h1 (rw (bad, handle_read) at still))
        | inr good ↦
            rw (good, handle_read)
              (send_answers-IsWatched d.0 d.1 (deliver-IsWatched r.0 s1 h1)
                (rw (good, handle_read) at still))
      ]
