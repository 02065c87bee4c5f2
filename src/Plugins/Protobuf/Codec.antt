-- ===== src/Plugins/Protobuf/Codec.antt =====
-- plugins/protobuf: `PackMessage` and `UnPacket`, one against the other.
use gev.Base.{
  ℕ, ◌+◌, ◌-◌, ◌*◌, ◌/◌, ◌%◌, ◌^◌, ◌≤◌, ◌<◌, ◌≡◌, refl, ap, ◌∙◌, [], ◌∷◌, ◌++◌, none, some, arith,
  ltb, length, length-append, replicate, length-replicate, take, drop, copy_at, copy_at_lem,
  take_append, drop_append, lt→ltb, le→ltb, le→leb, lt→leb, ◌⊎◌, inl, inr, Bool-cases, length-drop,
  append-nil, append_assoc, drop_all,
}
use gev.Deps.{Deps, Bytes}
use gev.Deps.Laws.{RingLaws, contents}
use gev.Plugins.Protobuf.{be32, be16, pack_message, Message, un_packet, take_message}

pub be32_value :
    (n : ℕ)
    → n < 2 ^ 32
    → ((n / 16777216 % 256 * 256 + n / 65536 % 256) * 256 + n / 256 % 256) * 256 + n % 256 ≡ n
be32_value n h = omega arith

be16_value : (n : ℕ) → n < 2 ^ 16 → n / 256 % 256 * 256 + n % 256 ≡ n
be16_value n h = omega arith

copy_behind :
    (k : ℕ) (pre src dst : Bytes)
    → k ≡ length pre
    → length src ≤ length dst
    → copy_at k src (pre ++ dst) ≡ pre ++ src ++ drop (length src) dst
copy_behind k pre src dst e h = rw e (copy_at_lem pre src dst h)

-- Four copies one behind the other fill a slice that they fit exactly.
copies_fill :
    (i j k : ℕ) (a b c d z : Bytes)
    → i ≡ length a
    → j ≡ length a + length b
    → k ≡ length a + length b + length c
    → length z ≡ length a + length b + length c + length d
    → copy_at k d (copy_at j c (copy_at i b (copy_at 0 a z))) ≡ a ++ (b ++ (c ++ d))
copies_fill i j k a b c d z ei ej ek ez =
    let z1 = drop (length a) z in
    let z2 = drop (length b) z1 in
    let z3 = drop (length c) z2 in
    let l1 = length-drop (length a) z in
    let l2 = length-drop (length b) z1 in
    let l3 = length-drop (length c) z2 in
    ap (λ t. copy_at k d (copy_at j c (copy_at i b t))) (copy_behind 0 [] a z refl (omega arith))
    ∙ ap (λ t. copy_at k d (copy_at j c t)) (copy_behind i a b z1 ei (omega arith))
    ∙ ap (λ t. copy_at k d t)
        (copy_behind j (a ++ b) c z2 (omega (arith, length-append a b)) (omega arith))
    ∙ copy_behind k (a ++ b ++ c) d z3 (omega (arith, length-append a b, length-append (a ++ b) c))
        (omega arith)
    ∙ ap (λ t. a ++ b ++ c ++ d ++ t) (drop_all (length d) z3 (omega arith))
    ∙ append-nil (a ++ b ++ c ++ d)
    ∙ append_assoc (a ++ b) c d
    ∙ append_assoc a b (c ++ d)

-- The four copies of `PackMessage` fill its slice.
pub pack_message_lem :
    (msg_type payload : Bytes)
    → pack_message msg_type payload
      ≡ be32 ((length payload + length msg_type + 2) % 2 ^ 32)
        ++ (be16 (length msg_type % 2 ^ 16) ++ (msg_type ++ payload))
unfolding pack_message
pack_message_lem msg_type payload =
    let len = length payload + length msg_type + 2 in
    copies_fill 4 6 (6 + length msg_type) (be32 (len % 2 ^ 32)) (be16 (length msg_type % 2 ^ 16))
      msg_type payload (replicate (len + 4) 0) refl refl (omega arith)
      (omega (arith, length-replicate {A = ℕ} (len + 4) 0))

module _ (D : Deps) (R : RingLaws D) where
  -- A read of a length that the buffer is known to begin with.
  ring_read_front :
      (n : ℕ) (front rest : Bytes) (r : D.Ring)
      → n ≡ length front
      → contents D r ≡ front ++ rest
      → ((D.ring_read n r).0 ≡ front) × (contents D (D.ring_read n r).1 ≡ rest)
  ring_read_front n front rest r e held = (
    R.ring_read_bytes n r
        ∙ ap (take n) held
        ∙ ap (λ k. take k (front ++ rest)) e
        ∙ take_append front rest,
    R.ring_read_rest n r
        ∙ ap (drop n) held
        ∙ ap (λ k. drop k (front ++ rest)) e
        ∙ drop_append front rest,
  )

  take_message_lem :
      (len a b c d e f : ℕ) (msg_type payload rest : Bytes) (r : D.Ring)
      → contents D r ≡ a ∷ b ∷ c ∷ d ∷ e ∷ f ∷ (msg_type ++ (payload ++ rest))
      → e * 256 + f ≡ length msg_type
      → len ≡ 2 + length msg_type + length payload
      → (m : Message D) × (take_message D len r ≡ some m)
        × (m.ctx ≡ some msg_type)
        × (m.out ≡ payload)
        × (contents D m.rest ≡ rest)
  unfolding take_message
  take_message_lem len a b c d e f msg_type payload rest r held v2 ll =
      let r1 = D.retrieve 4 r in
      let h1 = R.contents-retrieve 4 r ∙ ap (drop 4) held in
      let tl = D.peek_uint16 r1 in
      let tle = R.peek_uint16_lem e f (msg_type ++ (payload ++ rest)) r1 h1 ∙ v2 in
      let r2 = D.retrieve 2 r1 in
      let h2 = R.contents-retrieve 2 r1 ∙ ap (drop 2) h1 in
      let (t, h3) = ring_read_front tl msg_type (payload ++ rest) r2 tle h2 in
      let r3 = (D.ring_read tl r2).1 in
      let n = len - 2 - tl in
      let (p, h4) = ring_read_front n payload rest r3 (omega arith) h3 in
      (
        record {
          ctx = some (D.ring_read tl r2).0;
          out = (D.ring_read n r3).0;
          rest = (D.ring_read n r3).1;
        },
        rw (le→ltb len (2 + tl) (omega arith)),
        ap some t,
        p,
        h4,
      )

  -- A whole frame in front of the buffer.
  un_packet_frame :
      (len a b c d e f : ℕ) (msg_type payload rest : Bytes) (r : D.Ring)
      → contents D r ≡ a ∷ b ∷ c ∷ d ∷ e ∷ f ∷ (msg_type ++ (payload ++ rest))
      → ((a * 256 + b) * 256 + c) * 256 + d ≡ len
      → e * 256 + f ≡ length msg_type
      → len ≡ 2 + length msg_type + length payload
      → 0 < length msg_type + length payload + length rest
      → (m : Message D) × (un_packet D r ≡ some m)
        × (m.ctx ≡ some msg_type)
        × (m.out ≡ payload)
        × (contents D m.rest ≡ rest)
  unfolding un_packet
  un_packet_frame len a b c d e f msg_type payload rest r held v4 v2 ll some_bytes =
      let v : D.peek_uint32 r ≡ len =
        R.peek_uint32_lem a b c d (e ∷ f ∷ (msg_type ++ (payload ++ rest))) r held ∙ v4 in
      let size : D.ring_length r ≡ 6 + (length msg_type + (length payload + length rest)) = omega (
        arith,
        R.ring_length_lem r,
        ap length held,
        length-append msg_type (payload ++ rest),
        length-append payload rest,
      ) in
      let (m, taken, is_type, is_out, is_rest) =
        take_message_lem len a b c d e f msg_type payload rest r held v2 ll in
      (
        m,
        rw (lt→ltb 6 (D.ring_length r) (omega arith), v)
            (rw (le→leb (len + 4) (D.ring_length r) (omega arith)) taken),
        is_type,
        is_out,
        is_rest,
      )

  -- What `PackMessage` makes of a type name and data, in front of any further bytes, `UnPacket` gives
  -- back: the type name as the context, the data, and the further bytes left in the buffer. The name
  -- is shorter than 2 ^ 16 and the frame than 2 ^ 32, and the buffer holds more than an empty frame.
  pub un_packet-pack_message :
      (msg_type payload rest : Bytes) (r : D.Ring)
      → length msg_type < 2 ^ 16
      → length payload + length msg_type + 2 < 2 ^ 32
      → 0 < length msg_type + length payload + length rest
      → contents D r ≡ pack_message msg_type payload ++ rest
      → (m : Message D) × (un_packet D r ≡ some m)
        × (m.ctx ≡ some msg_type)
        × (m.out ≡ payload)
        × (contents D m.rest ≡ rest)
  un_packet-pack_message msg_type payload rest r ht hl some_bytes held =
      let tl = length msg_type in
      let len = length payload + tl + 2 in
      let n = len % 2 ^ 32 in
      let k = tl % 2 ^ 16 in
      un_packet_frame n (n / 16777216 % 256) (n / 65536 % 256) (n / 256 % 256) (n % 256)
        (k / 256 % 256) (k % 256) msg_type payload rest r
        (held
          ∙ ap (λ t. t ++ rest) (pack_message_lem msg_type payload)
          ∙ ap (λ t. be32 n ++ (be16 k ++ t)) (append_assoc msg_type payload rest))
        (be32_value n (omega arith)) (be16_value k (omega arith) ∙ omega arith) (omega arith)
        some_bytes

  -- A frame that is not there in full, by its own length or for want of the seven bytes that `UnPacket`
  -- looks at, is left alone: no context, no data, the buffer as it was.
  pub un_packet_waits :
      (r : D.Ring)
      → (length (contents D r) ≤ 6) ⊎ (length (contents D r) < D.peek_uint32 r + 4)
      → un_packet D r ≡ some (record { ctx = none; out = []; rest = r })
  unfolding un_packet
  un_packet_waits r (inl short) =
      rw (le→ltb 6 (D.ring_length r) (omega (arith, R.ring_length_lem r)))
  un_packet_waits r (inr partial) = elim (Bool-cases (ltb 6 (D.ring_length r))) [
    | inr e ↦ rw e
    | inl e ↦
        rw (e, lt→leb (D.peek_uint32 r + 4) (D.ring_length r) (omega (arith, R.ring_length_lem r)))
  ]

  -- Where a frame has arrived in a buffer of more than six bytes, and its type name is said to be longer than
  -- the frame has room for, `UnPacket` panics, in the `make` of a slice of negative length.
  pub un_packet_panics :
      (a b c d e f : ℕ) (rest : Bytes) (r : D.Ring)
      → contents D r ≡ a ∷ b ∷ c ∷ d ∷ e ∷ f ∷ rest
      → let len = ((a * 256 + b) * 256 + c) * 256 + d in
        0 < length rest → len ≤ 2 + length rest → len < 2 + (e * 256 + f) → un_packet D r ≡ none
  unfolding un_packet
  un_packet_panics a b c d e f rest r held more fits bad =
      let len = ((a * 256 + b) * 256 + c) * 256 + d in
      let v : D.peek_uint32 r ≡ len = R.peek_uint32_lem a b c d (e ∷ f ∷ rest) r held in
      let r1 = D.retrieve 4 r in
      let h1 = R.contents-retrieve 4 r ∙ ap (drop 4) held in
      let w : D.peek_uint16 r1 ≡ e * 256 + f = R.peek_uint16_lem e f rest r1 h1 in
      let size : D.ring_length r ≡ 6 + length rest =
        omega (arith, R.ring_length_lem r, ap length held) in
      rw (lt→ltb 6 (D.ring_length r) (omega arith)) (
        rw (le→leb (D.peek_uint32 r + 4) (D.ring_length r) (omega arith))
          (rw (lt→ltb (D.peek_uint32 r) (2 + D.peek_uint16 r1) (omega arith)) refl))
