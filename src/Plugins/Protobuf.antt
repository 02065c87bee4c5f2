-- ===== src/Plugins/Protobuf.antt =====
-- plugins/protobuf: frames of a length, the length of a type name, the name and the data.
pub mod Codec
use gev.Base.{
  ℕ, ◌+◌, ◌-◌, ◌*◌, ◌/◌, ◌%◌, ◌^◌, ◌≤◌, ◌<◌, Bool, true, false, not, List, [], ◌∷◌, ◌++◌, Option,
  none, some, if◌then◌else◌, ltb, leb, length, replicate, copy_at,
}
use gev.Deps.{Deps, Bytes}

-- `PutUint32` and `PutUint16`, big-endian.
abbrev pub be32 : ℕ → Bytes
be32 n = (n / 16777216 % 256) ∷ (n / 65536 % 256) ∷ (n / 256 % 256) ∷ (n % 256) ∷ []

abbrev pub be16 : ℕ → Bytes
be16 n = (n / 256 % 256) ∷ (n % 256) ∷ []

-- The conversions `uint32(…)` and `uint16(…)` are the remainders. The length itself does not wrap: a
-- slice is shorter than 2 ^ 64 - 6.
unfoldable pub pack_message : Bytes → Bytes → Bytes
pack_message msg_type payload =
    let type_len = length msg_type in
    let len = length payload + type_len + 2 in
    let ret = replicate (len + 4) 0 in
    let r1 = copy_at 0 (be32 (len % 2 ^ 32)) ret in
    let r2 = copy_at 4 (be16 (type_len % 2 ^ 16)) r1 in
    let r3 = copy_at 6 msg_type r2 in copy_at (6 + type_len) payload r3

-- `ctx`, `out` and what is left of the buffer.
pub record Message (D : Deps) : Type 0 where
  pub ctx : Option Bytes
  pub out : Bytes
  pub rest : D.Ring

module _ (D : Deps) where
  -- The body under both tests; `none` is the panic of `make` at a negative length.
  take_message : ℕ → D.Ring → Option (Message D)
  take_message len r =
      let r1 = D.retrieve 4 r in
      let type_len = D.peek_uint16 r1 in
      let r2 = D.retrieve 2 r1 in
      let (type_byte, r3) = D.ring_read type_len r2 in
      let (payload, r4) = D.ring_read (len - 2 - type_len) r3 in
      if ltb len (2 + type_len)
      then none
      else some (record { ctx = some type_byte; out = payload; rest = r4 })

  unfoldable pub un_packet : D.Ring → Option (Message D)
  unfolding take_message
  un_packet r =
      let len = D.peek_uint32 r in
      let taken = take_message len r in
      let waiting = some (record { ctx = none; out = []; rest = r }) in
      if ltb 6 (D.ring_length r)
      then if leb (len + 4) (D.ring_length r) then taken else waiting
      else waiting
