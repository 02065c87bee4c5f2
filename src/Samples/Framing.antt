-- ===== src/Samples/Framing.antt =====
-- example/protocol/protocol.go: frames of a length in four bytes and a payload. The virtual reads of the ring
-- buffer, which move a position that `VirtualFlush` makes the read position and `VirtualRevert` takes
-- back, are the fields of `VirtualRing`.
pub mod Codec
use gev.Base.{
  ℕ, ◌+◌, ◌-◌, ◌*◌, ◌/◌, ◌%◌, ◌^◌, ◌≤◌, ◌<◌, ◌≡◌, refl, ap, ◌∙◌, Bool, true, false, not, ◌||◌, [],
  ◌∷◌, ◌++◌, none, is_some, is_nil, if◌then◌else◌, ltb, leb, length, length-drop, take, drop,
  replicate, copy_at, arith, inl, inr, Bool-cases, ltb→lt,
}
use gev.Deps.{Deps, Bytes}
use gev.Deps.Laws.{RingLaws, contents}
use gev.Connection.{Connection, Unpacked}
use gev.Plugins.Protobuf.{be32}
use gev.Protocol.{Protocol, is_message}

pub record VirtualRing (D : Deps) : Type 0 where
  pub virtual_length : D.Ring → ℕ
  pub virtual_read : ℕ → D.Ring → Bytes × D.Ring
  pub virtual_flush : D.Ring → D.Ring
  pub virtual_revert : D.Ring → D.Ring

-- What the documentation of the ring buffer says of them: `unread` is what is behind the virtual position.
pub record VirtualLaws (D : Deps) (V : VirtualRing D) (unread : D.Ring → Bytes) : Type 0 where
  pub unread_le : (r : D.Ring) → length (unread r) ≤ length (contents D r)
  pub virtual_length_lem : (r : D.Ring) → V.virtual_length r ≡ length (unread r)
  pub virtual_read_bytes : (n : ℕ) (r : D.Ring) → (V.virtual_read n r).0 ≡ take n (unread r)
  pub unread-virtual_read : (n : ℕ) (r : D.Ring) → unread (V.virtual_read n r).1 ≡ drop n (unread r)
  pub contents-virtual_flush : (r : D.Ring) → contents D (V.virtual_flush r) ≡ unread r
  pub unread-virtual_flush : (r : D.Ring) → unread (V.virtual_flush r) ≡ unread r

-- `binary.BigEndian.Uint32` of four bytes.
abbrev pub uint32 : Bytes → ℕ
uint32 (a ∷ b ∷ c ∷ d ∷ rest) = ((a * 256 + b) * 256 + c) * 256 + d
uint32 short = 0

abbrev pub example_header_len : ℕ
example_header_len = 4

module _ (D : Deps) (V : VirtualRing D) where
  -- The body under the first test.
  un_packet_header : D.Ring → Bytes × D.Ring
  un_packet_header r =
      let (buf, r1) = V.virtual_read example_header_len r in
      let data_len = uint32 buf in
      let (ret, r2) = V.virtual_read data_len r1 in
      if leb data_len (V.virtual_length r1)
      then (ret, V.virtual_flush r2)
      else ([], V.virtual_revert r1)

  unfoldable pub un_packet : Connection D → D.User → Bytes → D.Ring → Unpacked D
  unfolding un_packet_header
  un_packet c user ub r =
      let (ret, rest) =
        if ltb example_header_len (V.virtual_length r) then un_packet_header r else ([], r) in
      record { ctx = none; received = ret; rest = rest; user_buffer = ub; user = user; calls = [] }

-- `assert_bytes` is the assertion `data.([]byte)`, and the remainder the conversion `uint32(…)`.
unfoldable pub packet : {D : Deps} → (D.Data → Bytes) → Connection D → D.Data → Bytes
packet assert_bytes c value =
    let dd = assert_bytes value in
    let data_len = length dd in
    let ret = replicate (example_header_len + data_len) 0 in
    copy_at 4 dd (copy_at 0 (be32 (data_len % 2 ^ 32)) ret)

module _ (D : Deps) (R : RingLaws D) (V : VirtualRing D) (unread : D.Ring → Bytes)
    (L : VirtualLaws D V unread) where
  header_short :
      (r : D.Ring)
      → let (buf, r1) = V.virtual_read 4 r in
        leb (uint32 buf) (V.virtual_length r1) ≡ false
        → is_nil (un_packet_header D V r).0 ≡ false
        → ⊥
  unfolding un_packet_header
  header_short r short full = ground arith

  -- What a message leaves is less by the header at least.
  header_progress :
      (r : D.Ring)
      → 4 < length (unread r)
      → is_nil (un_packet_header D V r).0 ≡ false
      → D.ring_length (un_packet_header D V r).1 < D.ring_length r
  unfolding un_packet_header
  header_progress r more full =
      let (buf, r1) = V.virtual_read 4 r in
      let n = uint32 buf in
      let r2 = (V.virtual_read n r1).1 in
      elim (Bool-cases (leb n (V.virtual_length r1))) [
        | inr short ↦ absurd (header_short r short full)
        | inl there ↦
            rw (there, un_packet_header)
              (omega (
                arith,
                R.ring_length_lem r,
                R.ring_length_lem (V.virtual_flush r2),
                L.unread_le r,
                ap length (L.contents-virtual_flush r2),
                ap length (L.unread-virtual_read n r1),
                ap length (L.unread-virtual_read 4 r),
                length-drop n (unread r1),
                length-drop 4 (unread r),
              ))
      ]

  no_message :
      (c : Connection D) (user : D.User) (ub : Bytes) (r : D.Ring)
      → ltb 4 (V.virtual_length r) ≡ false
      → is_message (un_packet D V c user ub r) ≡ true
      → ⊥
  unfolding un_packet
  no_message c user ub r short h = ground arith

  message_full :
      (c : Connection D) (user : D.User) (ub : Bytes) (r : D.Ring)
      → ltb 4 (V.virtual_length r) ≡ true
      → is_message (un_packet D V c user ub r) ≡ true
      → is_nil (un_packet_header D V r).0 ≡ false
  unfolding un_packet
  message_full c user ub r more h = ground arith

  pub un_packet_progress :
      (c : Connection D) (user : D.User) (ub : Bytes) (r : D.Ring)
      → is_message (un_packet D V c user ub r) ≡ true
      → D.ring_length (un_packet D V c user ub r).rest < D.ring_length r
  unfolding un_packet
  un_packet_progress c user ub r h = elim (Bool-cases (ltb 4 (V.virtual_length r))) [
    | inr short ↦ absurd (no_message c user ub r short h)
    | inl more ↦
        rw (more, un_packet)
          (header_progress r
            (omega (arith, ltb→lt 4 (V.virtual_length r) more, L.virtual_length_lem r))
            (message_full c user ub r more h))
  ]

  -- The example meets the interface of a protocol.
  abbrev pub example_protocol : (D.Data → Bytes) → Protocol D
  example_protocol assert_bytes = record {
    un_packet = un_packet D V;
    packet = packet assert_bytes;
    progress = un_packet_progress;
  }
