-- ===== src/Samples/Echo/Message.antt =====
-- example/echo/main.go: how the bytes of one read are answered, by the default protocol and a handler that echoes.
use gev.Base.{
  ℕ, zero, suc, ◌≡◌, refl, sym, ap, ◌∙◌, true, false, not, [], ◌++◌, Option, none, arith, is_nil,
  is_nil-pos, append-nil, ◌<◌,
}
use gev.Deps.{Deps, Bytes}
use gev.Deps.Laws.{RingLaws, contents}
use gev.Connection.{Connection, State, Handler, Unpacked}
use gev.Connection.Close.{perform_all}
use gev.Connection.Read.{
  fresh, handler_protocol, protocol_loop, call_un_packet, after_un_packet, on_message, reply_bytes,
  deliver, keep_rest,
}
use gev.Connection.Read.Frame.{loop_more, loop_done}
use gev.Protocol.{Protocol, is_message}
use gev.Protocol.Default.{default_protocol, un_packet_lem, un_packet_quiet}

-- A handler that answers each message with its bytes and calls nothing.
pub record Echoes (D : Deps) (H : Handler D) (P : Protocol D) : Type 0 where
  pub no_calls :
      (c : Connection D) (ctx : Option D.Ctx) (received : Bytes) (user : D.User)
      → (H.on_message c ctx received user).1 ≡ []
  pub same_bytes :
      (c d : Connection D) (ctx : Option D.Ctx) (received : Bytes) (user : D.User)
      → reply_bytes D P d (H.on_message c ctx received user).2 ≡ received

module _ (D : Deps) where
  -- What a round of the loop leaves alone.
  pub record Quiet (s t : State D) : Type 0 where
    pub quiet_os : t.os ≡ s.os
    pub quiet_fd : t.conn.fd ≡ s.conn.fd
    pub quiet_in : t.conn.in_buffer ≡ s.conn.in_buffer
    pub quiet_out : t.conn.out_buffer ≡ s.conn.out_buffer

  pub Quiet-trans : {s t u : State D} → Quiet s t → Quiet t u → Quiet s u
  Quiet-trans h k = ground arith

  un_packet-Quiet :
      (u : Unpacked D) (s : State D) → u.calls ≡ [] → Quiet s (after_un_packet D fresh u s)
  unfolding after_un_packet perform_all
  un_packet-Quiet u s h =
      rw (h, perform_all)
        (record { quiet_os = refl; quiet_fd = refl; quiet_in = refl; quiet_out = refl })

  un_packet_rest :
      (u : Unpacked D) (s : State D)
      → u.calls ≡ []
      → (after_un_packet D fresh u s).conn.buffer ≡ u.rest
  unfolding after_un_packet perform_all
  un_packet_rest u s h = rw (h, perform_all)

  module _ (R : RingLaws D) (assert_bytes : D.Data → Bytes) (H : Handler D)
      (E : Echoes D H (default_protocol D R assert_bytes)) where
    abbrev P : Protocol D
    P = default_protocol D R assert_bytes

    answer-Quiet : (u : Unpacked D) (s : State D) → Quiet s (on_message D H P u s).1
    unfolding on_message perform_all
    answer-Quiet u s =
        rw (E.no_calls s.conn u.ctx u.received s.user, perform_all)
          (record { quiet_os = refl; quiet_fd = refl; quiet_in = refl; quiet_out = refl })

    answer_buffer :
        (u : Unpacked D) (s : State D) → (on_message D H P u s).1.conn.buffer ≡ s.conn.buffer
    unfolding on_message perform_all
    answer_buffer u s = rw (E.no_calls s.conn u.ctx u.received s.user, perform_all)

    answer_bytes : (u : Unpacked D) (s : State D) → (on_message D H P u s).0 ≡ u.received
    unfolding on_message perform_all
    answer_bytes u s = E.same_bytes s.conn _ u.ctx u.received s.user

    -- A round of `handlerProtocol` on `buffer`: what it hands on, and the state after `UnPacket`.
    record Round (s : State D) : Type 0 where
      got : (call_un_packet D P fresh s).received ≡ contents D s.conn.buffer
      no_ctx : (call_un_packet D P fresh s).ctx ≡ none
      emptied : contents D (after_un_packet D fresh (call_un_packet D P fresh s) s).conn.buffer ≡ []
      still : Quiet s (after_un_packet D fresh (call_un_packet D P fresh s) s)

    round : (s : State D) → Round s
    unfolding call_un_packet
    round s =
        let u = call_un_packet D P fresh s in
        let quiet = (un_packet_quiet D s.conn s.user s.loop.user_buffer s.conn.buffer).1 in
        let (bytes, empty, none_given) =
          un_packet_lem D R s.conn s.user s.loop.user_buffer s.conn.buffer in
        record {
          got = bytes;
          no_ctx = none_given;
          emptied = ap (contents D) (un_packet_rest u s quiet) ∙ empty;
          still = un_packet-Quiet u s quiet;
        }

    is_message_lem : (u : Unpacked D) → u.ctx ≡ none → is_message u ≡ not (is_nil u.received)
    is_message_lem u h = ground arith

    record Answered (b tmp : Bytes) (s : State D) (r : Bytes × State D) : Type 0 where
      answer : r.0 ≡ tmp ++ b
      used : contents D r.1.conn.buffer ≡ []
      same : Quiet s r.1

    -- A round that finds no bytes ends the loop.
    loop_ends :
        (fuel : ℕ) (tmp : Bytes) (s : State D)
        → contents D s.conn.buffer ≡ []
        → Answered [] tmp s (protocol_loop D (suc fuel) H P fresh tmp s)
    loop_ends fuel tmp s h =
        let v = round s in
        let u = call_un_packet D P fresh s in
        let done : is_message u ≡ false =
          is_message_lem u v.no_ctx ∙ ap (λ b. not (is_nil b)) (v.got ∙ h) in
        rw (loop_done D H P fuel fresh tmp s done)
          (record { answer = sym (append-nil tmp); used = v.emptied; same = v.still })

    -- One round answers all bytes, and the next ends the loop.
    loop_answers :
        (fuel : ℕ) (s : State D)
        → is_nil (contents D s.conn.buffer) ≡ false
        → Answered (contents D s.conn.buffer) [] s (protocol_loop D (suc (suc fuel)) H P fresh [] s)
    loop_answers fuel s h =
        let v = round s in
        let u = call_un_packet D P fresh s in
        let s1 = after_un_packet D fresh u s in
        let m = on_message D H P u s1 in
        let more : is_message u ≡ true =
          is_message_lem u v.no_ctx ∙ ap (λ b. not (is_nil b)) v.got ∙ ap not h in
        let left = ap (contents D) (answer_buffer u s1) ∙ v.emptied in
        let e = loop_ends fuel m.0 m.1 left in
        rw (loop_more D H P (suc fuel) fresh [] s more) (record {
          answer = e.answer ∙ append-nil m.0 ∙ answer_bytes u s1 ∙ v.got;
          used = e.used;
          same = Quiet-trans v.still (Quiet-trans (answer-Quiet u s1) e.same);
        })

    loop_for :
        (n : ℕ) (s : State D)
        → 0 < n
        → is_nil (contents D s.conn.buffer) ≡ false
        → Answered (contents D s.conn.buffer) [] s (protocol_loop D (suc n) H P fresh [] s)
    loop_for zero s lt h = absurd (omega arith)
    loop_for (suc n) s lt h = loop_answers n s h

    handler_protocol_lem :
        (s : State D)
        → is_nil (contents D s.conn.buffer) ≡ false
        → Answered (contents D s.conn.buffer) [] s (handler_protocol D H P fresh s)
    unfolding handler_protocol
    handler_protocol_lem s h =
        loop_for (D.ring_length s.conn.buffer) s
          (omega (arith, R.ring_length_lem s.conn.buffer, is_nil-pos (contents D s.conn.buffer) h))
          h

    is_empty_of : (r : D.Ring) → contents D r ≡ [] → D.is_empty r ≡ true
    is_empty_of r h = R.is_empty_lem r ∙ ap is_nil h

    -- Where no bytes wait from before, the answers to the bytes of a read are these bytes.
    pub deliver_lem :
        (b : Bytes) (s : State D)
        → is_nil b ≡ false
        → contents D s.conn.in_buffer ≡ []
        → ((deliver D H P b s).0 ≡ b) × Quiet s (deliver D H P b s).1
    unfolding deliver keep_rest
    deliver_lem b s full idle =
        let c = s.conn in
        let s1 : State D = record s { conn = record c { buffer = D.with_data b c.buffer } } in
        let holds = R.contents-with_data b c.buffer in
        let a = handler_protocol_lem s1 (ap is_nil holds ∙ full) in
        let r = handler_protocol D H P fresh s1 in
        rw (is_empty_of c.in_buffer idle, deliver)
          (rw (is_empty_of r.1.conn.buffer a.used, keep_rest)
            (
              a.answer ∙ holds,
              Quiet-trans
                  (record { quiet_os = refl; quiet_fd = refl; quiet_in = refl; quiet_out = refl })
                  a.same,
            ))
