-- ===== src/Samples/Framing/Codec.antt =====
-- example/protocol/protocol.go: `Packet` and `UnPacket`, one against the other.
pub mod Messages
use gev.Base.{
  ℕ, ◌+◌, ◌*◌, ◌/◌, ◌%◌, ◌^◌, ◌≤◌, ◌<◌, ◌≡◌, refl, ap, ◌∙◌, [], ◌∷◌, ◌++◌, none, arith, length,
  length-append, replicate, length-replicate, take, drop, copy_at, copy_at_lem, take_append,
  drop_append, drop_all, length-drop, append-nil, append_assoc, lt→ltb, le→ltb, le→leb, is_nil,
  true, false,
}
use gev.Deps.{Deps, Bytes}
use gev.Deps.Laws.{RingLaws, contents}
use gev.Connection.{Connection, Unpacked}
use gev.Plugins.Protobuf.{be32}
use gev.Plugins.Protobuf.Codec.{be32_value}
use gev.Protocol.{is_message}
use gev.Samples.Framing.{VirtualRing, VirtualLaws, uint32, un_packet, un_packet_header, packet}

-- `Packet` writes the length and the payload.
pub packet_lem :
    {D : Deps} (assert_bytes : D.Data → Bytes) (c : Connection D) (v : D.Data)
    → packet assert_bytes c v ≡ be32 (length (assert_bytes v) % 2 ^ 32) ++ assert_bytes v
unfolding packet
packet_lem assert_bytes c v =
    let dd = assert_bytes v in
    let n = length dd in
    let head = be32 (n % 2 ^ 32) in
    let z = replicate (4 + n) 0 in
    let size = length-replicate {A = ℕ} (4 + n) 0 in
    ap (copy_at 4 dd) (copy_at_lem [] head z (omega arith))
    ∙ copy_at_lem head dd (drop 4 z) (omega (arith, length-drop 4 z))
    ∙ ap (λ t. head ++ dd ++ t) (drop_all n (drop 4 z) (omega (arith, length-drop 4 z)))
    ∙ append-nil (head ++ dd)

module _ (D : Deps) (V : VirtualRing D) (unread : D.Ring → Bytes) (L : VirtualLaws D V unread) where
  -- A frame that is there in full, with at least one more byte than its length.
  header_lem :
      (payload rest : Bytes) (r : D.Ring)
      → length payload < 2 ^ 32
      → unread r ≡ be32 (length payload % 2 ^ 32) ++ (payload ++ rest)
      → let x = un_packet_header D V r in
        (x.0 ≡ payload) × (contents D x.1 ≡ rest) × (unread x.1 ≡ rest)
  unfolding un_packet_header
  header_lem payload rest r small held =
      let buf = (V.virtual_read 4 r).0 in
      let r1 = (V.virtual_read 4 r).1 in
      let n = uint32 buf in
      let r2 = (V.virtual_read n r1).1 in
      let is_n : n ≡ length payload =
        ap uint32 (L.virtual_read_bytes 4 r ∙ ap (take 4) held)
        ∙ be32_value (length payload % 2 ^ 32) (omega arith)
        ∙ omega arith in
      let left1 : unread r1 ≡ payload ++ rest = L.unread-virtual_read 4 r ∙ ap (drop 4) held in
      let left2 : unread r2 ≡ rest =
        L.unread-virtual_read n r1
        ∙ ap (drop n) left1
        ∙ ap (λ k. drop k (payload ++ rest)) is_n
        ∙ drop_append payload rest in
      let there = le→leb n (V.virtual_length r1) (
        omega
          (arith, is_n, L.virtual_length_lem r1, ap length left1, length-append payload rest)) in
      rw (there, un_packet_header)
        (
          L.virtual_read_bytes n r1
              ∙ ap (take n) left1
              ∙ ap (λ k. take k (payload ++ rest)) is_n
              ∙ take_append payload rest,
          L.contents-virtual_flush r2 ∙ left2,
          L.unread-virtual_flush r2 ∙ left2,
        )

  -- What `Packet` makes of a payload shorter than 2 ^ 32, in front of any further bytes, `UnPacket` gives
  -- back, and leaves the further bytes in the buffer, where payload and further bytes are not both
  -- empty.
  pub un_packet-packet :
      (assert_bytes : D.Data → Bytes) (c d : Connection D) (v : D.Data) (user : D.User)
      (ub rest : Bytes) (r : D.Ring)
      → length (assert_bytes v) < 2 ^ 32
      → 0 < length (assert_bytes v) + length rest
      → unread r ≡ packet assert_bytes d v ++ rest
      → let u = un_packet D V c user ub r in
        (u.received ≡ assert_bytes v)
        × (u.ctx ≡ none)
        × (contents D u.rest ≡ rest)
        × (unread u.rest ≡ rest)
  unfolding un_packet
  un_packet-packet assert_bytes c d v user ub rest r small more held =
      let payload = assert_bytes v in
      let head = be32 (length payload % 2 ^ 32) in
      let held1 : unread r ≡ head ++ (payload ++ rest) =
        held ∙ ap (λ t. t ++ rest) (packet_lem assert_bytes d v) ∙ append_assoc head payload rest in
      let (got, left, left_unread) = header_lem payload rest r small held1 in
      let enough =
        lt→ltb 4 (V.virtual_length r)
          (omega (arith, L.virtual_length_lem r, ap length held1, length-append payload rest)) in
      rw (enough, un_packet) (got, refl, left, left_unread)

  -- Where at most four bytes are there, `UnPacket` leaves the buffer as it is and gives no message.
  pub un_packet_few :
      (c : Connection D) (user : D.User) (ub : Bytes) (r : D.Ring)
      → length (unread r) ≤ 4
      → let u = un_packet D V c user ub r in (is_message u ≡ false) × (u.rest ≡ r)
  unfolding un_packet
  un_packet_few c user ub r few =
      rw (le→ltb 4 (V.virtual_length r) (omega (arith, L.virtual_length_lem r)), un_packet)
        (refl, refl)
