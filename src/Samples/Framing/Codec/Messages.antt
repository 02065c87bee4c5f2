-- ===== src/Samples/Framing/Codec/Messages.antt =====
-- example/protocol/protocol.go with connection.go: what a handler is given of a stream of frames.
use gev.Base.{
  Bool, ℕ, zero, suc, ◌^◌, ◌≤◌, ◌<◌, ◌≡◌, refl, sym, ap, ◌∙◌, true, false, not, ◌||◌, List, [], ◌∷◌,
  ◌++◌, Option, none, arith, length, length-append, append-nil, is_nil, is_some, subst,
}
use gev.Deps.{Deps, Bytes}
use gev.Deps.Laws.{RingLaws, contents}
use gev.Connection.{Connection, State, Handler, Unpacked}
use gev.Connection.Close.{perform_all}
use gev.Connection.Read.{
  Source, ring_of, after_un_packet, call_un_packet, on_message, protocol_loop, handler_protocol,
}
use gev.Connection.Read.Frame.{after_un_packet-ring, on_message-ring, loop_more, loop_done}
use gev.Protocol.{Protocol, is_message}
use gev.Samples.Framing.{VirtualRing, VirtualLaws, un_packet, packet, example_protocol}
use gev.Samples.Framing.Codec.{packet_lem, un_packet-packet, un_packet_few}

or_true : (a b : Bool) → b ≡ true → (a || b) ≡ true
or_true a b h = ground arith

length-is_nil : (b : Bytes) → 0 < length b → is_nil b ≡ false
length-is_nil [] h = absurd (omega arith)
length-is_nil (x ∷ b) h = refl

length_zero : (b : Bytes) → length b ≡ 0 → is_nil b ≡ true
length_zero [] h = refl
length_zero (x ∷ b) h = absurd (omega (arith, h))

module _ (D : Deps) (R : RingLaws D) (V : VirtualRing D) (unread : D.Ring → Bytes)
    (L : VirtualLaws D V unread) (assert_bytes : D.Data → Bytes) (H : Handler D)
    (note : Bytes → D.User → D.User) where
  -- The frames of some payloads, one behind the other, and further bytes.
  abbrev pub frames : Connection D → List D.Data → Bytes → Bytes
  frames d [] tail = tail
  frames d (v ∷ vs) tail = packet assert_bytes d v ++ frames d vs tail

  -- None is empty, and each fits its length.
  abbrev pub AllFull : List D.Data → Type 0
  AllFull [] = Unit {0}
  AllFull (v ∷ vs) = (0 < length (assert_bytes v)) × (length (assert_bytes v) < 2 ^ 32) × AllFull vs

  abbrev pub noted : List D.Data → D.User → D.User
  noted [] user = user
  noted (v ∷ vs) user = noted vs (note (assert_bytes v) user)

  -- What is to be read, by both positions.
  record Holding (source : Source) (s : State D) (bts : Bytes) : Type 0 where
    all_bytes : contents D (ring_of D source s.conn) ≡ bts
    to_read : unread (ring_of D source s.conn) ≡ bts

  module _
      (records : (c : Connection D) (ctx : Option D.Ctx) (bts : Bytes) (user : D.User)
        → H.on_message c ctx bts user ≡ (note bts user, [], none)) where
    abbrev framing : Protocol D
    framing = example_protocol D R V unread L assert_bytes

    on_message_user :
        (u : Unpacked D) (s : State D)
        → ((on_message D H framing u s).0 ≡ [])
          × ((on_message D H framing u s).1.user ≡ note u.received s.user)
    unfolding on_message perform_all
    on_message_user u s = rw (records s.conn u.ctx u.received s.user) (refl, refl)

    after_user :
        (source : Source) (s : State D)
        → (after_un_packet D source (call_un_packet D framing source s) s).user ≡ s.user
    unfolding after_un_packet call_un_packet perform_all un_packet
    after_user source s = refl

    message_lem : (u : Unpacked D) (b : Bytes) → u.received ≡ b → 0 < length b → is_message u ≡ true
    message_lem u b got more =
        or_true (is_some u.ctx) (not (is_nil u.received))
          (ap (λ x. not (is_nil x)) got ∙ ap not (length-is_nil b more))

    holding :
        (source : Source) (u : Unpacked D) (s : State D) (bts : Bytes)
        → contents D u.rest ≡ bts
        → unread u.rest ≡ bts
        → Holding source (after_un_packet D source u s) bts
    holding source u s bts h k =
        let left = after_un_packet-ring D source u s in
        record { all_bytes = ap (contents D) left ∙ h; to_read = ap unread left ∙ k }

    protocol_loop-frames :
        (fuel : ℕ) (source : Source) (d : Connection D) (vs : List D.Data) (tail tmp : Bytes)
        (s : State D)
        → length vs < fuel
        → AllFull vs
        → length tail ≤ 4
        → Holding source s (frames d vs tail)
        → let r = protocol_loop D fuel H framing source tmp s in
          (r.0 ≡ tmp) × (r.1.user ≡ noted vs s.user) × Holding source r.1 tail
    unfolding call_un_packet un_packet
    protocol_loop-frames zero source d vs tail tmp s enough full few h = absurd (omega arith)
    protocol_loop-frames (suc fuel) source d [] tail tmp s enough full few h =
        let r = ring_of D source s.conn in
        let u = call_un_packet D framing source s in
        let (no_message, left) =
          un_packet_few D V unread L s.conn s.user s.loop.user_buffer r
            (omega (arith, ap length h.to_read)) in
        subst (λ x. (x.0 ≡ tmp) × (x.1.user ≡ s.user) × Holding source x.1 tail)
          (sym (loop_done D H framing fuel source tmp s no_message))
          (
            refl,
            after_user source s,
            holding source u s tail (ap (contents D) left ∙ h.all_bytes)
                (ap unread left ∙ h.to_read),
          )
    protocol_loop-frames (suc fuel) source d (v ∷ vs) tail tmp s enough (some_bytes, small, full)
          few h =
        let r = ring_of D source s.conn in
        let u = call_un_packet D framing source s in
        let s1 = after_un_packet D source u s in
        let m = on_message D H framing u s1 in
        let (got, ctx, left, left_unread) =
          un_packet-packet D V unread L assert_bytes s.conn d v s.user s.loop.user_buffer
            (frames d vs tail) r small (omega arith) h.to_read in
        let (no_reply, user1) = on_message_user u s1 in
        let ring_left =
          on_message-ring D H framing source u s1 ∙ after_un_packet-ring D source u s in
        let (answers, user, rest) =
          protocol_loop-frames fuel source d vs tail (tmp ++ m.0) m.1 (omega arith) full few
            (record {
              all_bytes = ap (contents D) ring_left ∙ left;
              to_read = ap unread ring_left ∙ left_unread;
            }) in
        subst (λ x. (x.0 ≡ tmp) × (x.1.user ≡ noted (v ∷ vs) s.user) × Holding source x.1 tail)
          (sym (
            loop_more D H framing fuel source tmp s
              (message_lem u (assert_bytes v) got some_bytes)))
          (
            answers ∙ ap (λ b. tmp ++ b) no_reply ∙ append-nil tmp,
            user
                ∙ ap (noted vs) (
                    user1
                    ∙ ap (λ b. note b s1.user) got
                    ∙ ap (note (assert_bytes v)) (after_user source s)),
            rest,
          )

    length-frames :
        (d : Connection D) (vs : List D.Data) (tail : Bytes) → length vs ≤ length (frames d vs tail)
    length-frames d [] tail = omega arith
    length-frames d (v ∷ vs) tail = omega (
      arith,
      length-append (packet assert_bytes d v) (frames d vs tail),
      length-frames d vs tail,
      ap length (packet_lem assert_bytes d v),
    )

    -- Where the buffer that `handlerProtocol` is given holds the frames of some payloads, none empty and each
    -- shorter than 2 ^ 32, and at most four further bytes, a handler that only notes what it is given
    -- notes exactly the payloads, in order; the further bytes are left, and nothing is answered.
    pub handler_protocol-frames :
        (source : Source) (d : Connection D) (vs : List D.Data) (tail : Bytes) (s : State D)
        → AllFull vs
        → length tail ≤ 4
        → contents D (ring_of D source s.conn) ≡ frames d vs tail
        → unread (ring_of D source s.conn) ≡ frames d vs tail
        → let r = handler_protocol D H framing source s in
          (r.0 ≡ [])
          × (r.1.user ≡ noted vs s.user)
          × (contents D (ring_of D source r.1.conn) ≡ tail)
    unfolding handler_protocol
    handler_protocol-frames source d vs tail s full few all_bytes to_read =
        let r = ring_of D source s.conn in
        let (answers, user, rest) =
          protocol_loop-frames (suc (D.ring_length r)) source d vs tail [] s
            (omega (arith, R.ring_length_lem r, ap length all_bytes, length-frames d vs tail)) full
            few (record { all_bytes = all_bytes; to_read = to_read }) in
        (answers, user, rest.all_bytes)

    -- A frame with an empty payload hides what is behind it: `handlerProtocol` takes the frame off and ends
    -- there, since `UnPacket` gave no bytes, so that no frame behind it reaches the handler.
    pub handler_protocol-empty_frame :
        (source : Source) (d : Connection D) (v : D.Data) (rest : Bytes) (s : State D)
        → length (assert_bytes v) ≡ 0
        → 0 < length rest
        → unread (ring_of D source s.conn) ≡ packet assert_bytes d v ++ rest
        → let r = handler_protocol D H framing source s in
          (r.0 ≡ []) × (r.1.user ≡ s.user) × (contents D (ring_of D source r.1.conn) ≡ rest)
    unfolding handler_protocol call_un_packet un_packet
    handler_protocol-empty_frame source d v rest s empty more to_read =
        let r = ring_of D source s.conn in
        let u = call_un_packet D framing source s in
        let (got, ctx, left, left_unread) =
          un_packet-packet D V unread L assert_bytes s.conn d v s.user s.loop.user_buffer rest r
            (omega (arith, empty)) (omega (arith, more)) to_read in
        subst
          (λ x. (x.0 ≡ []) × (x.1.user ≡ s.user) × (contents D (ring_of D source x.1.conn) ≡ rest))
          (sym (
            loop_done D H framing (D.ring_length r) source [] s
              (nothing u (ap length got ∙ empty) ctx)))
          (refl, after_user source s, (holding source u s rest left left_unread).all_bytes)
      where
        nothing : (u : Unpacked D) → length u.received ≡ 0 → u.ctx ≡ none → is_message u ≡ false
        nothing u few no_ctx =
            ap (λ c. is_some c || not (is_nil u.received)) no_ctx
            ∙ ap not (length_zero u.received few)
