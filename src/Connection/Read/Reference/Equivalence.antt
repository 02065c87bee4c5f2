-- ===== src/Connection/Read/Reference/Equivalence.antt =====
-- connection.go: `handleRead` against the reference that always appends to `inBuffer`.
use gev.Base.{
  ℕ, zero, suc, ◌≡◌, refl, sym, ap, ◌∙◌, [], ◌++◌, subst, Bool-cases, inl, inr, is_nil→[],
  append-nil, length,
}
use gev.Deps.{Deps, Bytes}
use gev.Deps.Laws.{RingLaws, contents}
use gev.Connection.{State, Handler, Unpacked}
use gev.Connection.Close.Once.{perform_all-Keeps}
use gev.Connection.Read.{
  fresh, pending, after_un_packet, call_un_packet, on_message, protocol_loop, handler_protocol,
  keep_rest, deliver,
}
use gev.Connection.Read.Frame.{after_un_packet-ring, on_message-ring, loop_more, loop_done}
use gev.Connection.Read.Reference.{blur, IsBlind, IsFlat, Matched, deliver_reference}
use gev.Connection.Read.Reference.Blur.{after_un_packet-blur, on_message-blur}
use gev.Protocol.{Protocol, is_message}

module _ (D : Deps) (H : Handler D) (P : Protocol D) (K : IsBlind D H P) where
  -- The answers are the same, and the states differ in their buffers alone.
  record Agree (r r' : Bytes × State D) : Type 0 where
    same_answers : r'.0 ≡ r.0
    matched : Matched D r.1 r'.1

  after_idle :
      (u : Unpacked D) (s : State D)
      → (after_un_packet D fresh u s).conn.in_buffer ≡ s.conn.in_buffer
  unfolding after_un_packet
  after_idle u s = (perform_all-Keeps D u.calls _).keep_in_buffer

  message_idle :
      (u : Unpacked D) (s : State D) → (on_message D H P u s).1.conn.in_buffer ≡ s.conn.in_buffer
  message_idle u s = on_message-ring D H P pending u s

  message_same :
      (u u' : Unpacked D) → u'.ctx ≡ u.ctx → u'.received ≡ u.received → is_message u' ≡ is_message u
  message_same u u' h k = rw (h, k) refl

  along : {r r1 r' r1' : Bytes × State D} → r1 ≡ r → r1' ≡ r' → Agree r r' → Agree r1 r1'
  along {r} {r1} {r'} {r1'} h h' a =
      subst (λ x. Agree x r1') (sym h) (subst (λ x. Agree r x) (sym h') a)

  -- The state and its blurred copy, beside the same answers.
  agree :
      (tmp : Bytes) (b i : D.Ring) (ub : Bytes) (s : State D)
      → contents D i ≡ contents D s.conn.buffer
      → IsFlat D s.conn.buffer
      → contents D s.conn.in_buffer ≡ []
      → Agree (tmp, s) (tmp, blur D b i ub s)
  agree tmp b i ub s held flat idle = record {
    same_answers = refl;
    matched = record {
      buf = b;
      inb = i;
      ub = ub;
      same = refl;
      held = held;
      flat = flat;
      idle = idle;
    };
  }

  protocol_loop-Agree :
      (fuel : ℕ) (tmp : Bytes) (b i : D.Ring) (ub : Bytes) (s : State D)
      → contents D i ≡ contents D s.conn.buffer
      → IsFlat D s.conn.buffer
      → contents D s.conn.in_buffer ≡ []
      → Agree
          (protocol_loop D fuel H P fresh tmp s)
          (protocol_loop D fuel H P pending tmp (blur D b i ub s))
  unfolding call_un_packet
  protocol_loop-Agree zero tmp b i ub s held flat idle =
      unfold protocol_loop in agree tmp b i ub s held flat idle
  protocol_loop-Agree (suc fuel) tmp b i ub s held flat idle =
      let c = s.conn in
      let t = blur D b i ub s in
      let u = call_un_packet D P fresh s in
      let u' = call_un_packet D P pending t in
      let (ctx, bytes, user, calls, rest) =
        K.blind_un_packet b i c s.user s.loop.user_buffer ub c.buffer i held in
      let s1 = after_un_packet D fresh u s in
      let after = after_un_packet-blur D u u' b i ub s user calls in
      let m = on_message D H P u s1 in
      let answer =
        ap (on_message D H P u') after
        ∙ on_message-blur D H P u u' b u'.rest u'.user_buffer s1 K ctx bytes in
      let left = after_un_packet-ring D fresh u s in
      let left2 = on_message-ring D H P fresh u s1 ∙ left in
      let flat_left = K.flat_rest c s.user s.loop.user_buffer c.buffer flat in
      elim (Bool-cases (is_message u)) [
        | inl more ↦
            along (loop_more D H P fuel fresh tmp s more)
              (loop_more D H P fuel pending tmp t (message_same u u' ctx bytes ∙ more)
                ∙ ap (λ x. protocol_loop D fuel H P pending (tmp ++ x.0) x.1) answer)
              (protocol_loop-Agree fuel (tmp ++ m.0) b u'.rest u'.user_buffer m.1
                (rest ∙ sym (ap (contents D) left2)) (subst (IsFlat D) (sym left2) flat_left)
                (ap (contents D) (message_idle u s1 ∙ after_idle u s) ∙ idle))
        | inr done ↦
            along (loop_done D H P fuel fresh tmp s done)
              (loop_done D H P fuel pending tmp t (message_same u u' ctx bytes ∙ done)
                ∙ ap (λ x. (tmp, x)) after)
              (agree tmp b u'.rest u'.user_buffer s1 (rest ∙ sym (ap (contents D) left))
                (subst (IsFlat D) (sym left) flat_left) (ap (contents D) (after_idle u s) ∙ idle))
      ]

  module _ (R : RingLaws D) where
    -- What the states have in common in the end.
    Same : State D → State D → Type 0
    Same s t =
        ((b : D.Ring) × (i : D.Ring) × (ub : Bytes) × (t ≡ blur D b i ub s))
        × (contents D t.conn.in_buffer ≡ contents D s.conn.in_buffer)

    handler_protocol-Agree :
        (b i : D.Ring) (ub : Bytes) (s : State D)
        → contents D i ≡ contents D s.conn.buffer
        → IsFlat D s.conn.buffer
        → contents D s.conn.in_buffer ≡ []
        → Agree (handler_protocol D H P fresh s) (handler_protocol D H P pending (blur D b i ub s))
    unfolding handler_protocol
    handler_protocol-Agree b i ub s held flat idle =
        let size = D.ring_length s.conn.buffer in
        let same_size =
          R.ring_length_lem i ∙ ap length held ∙ sym (R.ring_length_lem s.conn.buffer) in
        along refl (ap (λ n. protocol_loop D (suc n) H P pending [] (blur D b i ub s)) same_size)
          (protocol_loop-Agree (suc size) [] b i ub s held flat idle)

    -- `first` of `PeekAll` is all of a ring that does not wrap.
    flat_contents : (r : D.Ring) → IsFlat D r → (D.peek_all r).0 ≡ contents D r
    flat_contents r flat = sym (append-nil _) ∙ ap (λ e. (D.peek_all r).0 ++ e) (sym flat)

    keep_rest-Same : (s t : State D) → Matched D s t → Same (keep_rest D s) t
    unfolding keep_rest Same
    keep_rest-Same s t k = elim (Bool-cases (D.is_empty s.conn.buffer)) [
      | inl e ↦
          rw (e, keep_rest)
            (
              (k.buf, k.inb, k.ub, k.same),
              ap (λ x. contents D x.conn.in_buffer) k.same
                  ∙ k.held
                  ∙ is_nil→[] _ (sym (R.is_empty_lem s.conn.buffer) ∙ e)
                  ∙ sym k.idle,
            )
      | inr e ↦
          rw (e, keep_rest)
            (
              (k.buf, k.inb, k.ub, k.same),
              ap (λ x. contents D x.conn.in_buffer) k.same
                  ∙ k.held
                  ∙ sym (flat_contents s.conn.buffer k.flat)
                  ∙ ap (λ x. x ++ (D.peek_all s.conn.buffer).0) (sym k.idle)
                  ∙ sym (R.contents-ring_write (D.peek_all s.conn.buffer).0 s.conn.in_buffer),
            )
    ]

    -- Whatever was read, the two ways in which `handleRead` hands it on give the answers, the messages and
    -- the state that the reference gives, but for the buffers, and `inBuffer` holds the same bytes in
    -- the end. The protocol and the handler do not look at the buffers, and `WithData` gives a ring that
    -- does not wrap.
    pub deliver-deliver_reference :
        (bts : Bytes) (s : State D)
        → ((b : Bytes) (r : D.Ring) → IsFlat D (D.with_data b r))
        → let r = deliver D H P bts s in
          let r' = deliver_reference D H P bts s in
          (r'.0 ≡ r.0)
          × ((b : D.Ring) × (i : D.Ring) × (ub : Bytes) × (r'.1 ≡ blur D b i ub r.1))
          × (contents D r'.1.conn.in_buffer ≡ contents D r.1.conn.in_buffer)
    unfolding deliver deliver_reference Same
    deliver-deliver_reference bts s flat_data =
        let c = s.conn in
        let i = D.ring_write bts c.in_buffer in
        let f : State D = record s { conn = record c { buffer = D.with_data bts c.buffer } } in
        let p : State D = record s { conn = record c { in_buffer = i } } in
        elim (Bool-cases (D.is_empty c.in_buffer)) [
          | inr waits ↦
              let r = handler_protocol D H P pending p in
              rw (waits, deliver)
                (refl, (r.1.conn.buffer, r.1.conn.in_buffer, r.1.loop.user_buffer, refl), refl)
          | inl e ↦
              let idle = is_nil→[] _ (sym (R.is_empty_lem c.in_buffer) ∙ e) in
              let held =
                R.contents-ring_write bts c.in_buffer
                ∙ ap (λ x. x ++ bts) idle
                ∙ sym (R.contents-with_data bts c.buffer) in
              let a =
                handler_protocol-Agree c.buffer i s.loop.user_buffer f held (flat_data bts c.buffer)
                  idle in
              let (blurred, kept) = keep_rest-Same _ _ a.matched in
              rw (e, deliver) (a.same_answers, blurred, kept)
        ]
