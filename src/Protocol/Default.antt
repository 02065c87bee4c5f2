-- ===== src/Protocol/Default.antt =====
-- protocol.go: `DefaultProtocol`, which hands on all bytes of the buffer at once.
use gev.Base.{
  ℕ, ◌+◌, ◌≤◌, ◌<◌, ◌≡◌, refl, sym, ap, ◌∙◌, true, false, not, [], ◌++◌, none, arith, append-nil,
  if◌then◌else◌, ltb, length, length-append, take, drop, replicate, length-replicate, is_nil,
  is_nil→[], is_nil-pos, copy_at, copy_at_lem, take_append, length-drop, inl, inr, Bool-cases,
}
use gev.Deps.{Deps, Bytes}
use gev.Deps.Laws.{RingLaws, contents}
use gev.Connection.{Connection, Unpacked}
use gev.Protocol.{Protocol, is_message}

-- The user buffer, grown if it is too small.
abbrev grown : ℕ → Bytes → Bytes
grown size ub = if ltb (length ub) size then replicate size 0 else ub

-- The two parts of the ring, copied one behind the other.
joined : Bytes → Bytes → Bytes → Bytes
joined first end ub =
    copy_at (length first) end (copy_at 0 first (grown (length first + length end) ub))

module _ (D : Deps) where
  unfoldable pub un_packet : Connection D → D.User → Bytes → D.Ring → Unpacked D
  unfolding joined
  un_packet c user ub r =
      let (first, end) = D.peek_all r in
      let buf = joined first end ub in
      if not (is_nil end)
      then record {
        ctx = none;
        received = take (length first + length end) buf;
        rest = D.retrieve_all r;
        user_buffer = buf;
        user = user;
        calls = [];
      }
      else record {
        ctx = none;
        received = first;
        rest = D.retrieve_all r;
        user_buffer = ub;
        user = user;
        calls = [];
      }

  -- `assert_bytes` is the assertion `data.([]byte)`.
  unfoldable pub packet : (D.Data → Bytes) → Connection D → D.Data → Bytes
  packet assert_bytes c value = assert_bytes value

grown_long : (size : ℕ) (ub : Bytes) → size ≤ length (grown size ub)
grown_long size ub = elim (Bool-cases (ltb (length ub) size)) [
  | inl e ↦ rw e (omega (arith, length-replicate {A = ℕ} size 0))
  | inr e ↦ rw e (ground arith)
]

-- The copies put the whole of both parts in front of the buffer.
joined_lem :
    (first end ub : Bytes) → take (length first + length end) (joined first end ub) ≡ first ++ end
unfolding joined
joined_lem first end ub =
    let size = length first + length end in
    let g = grown size ub in
    let long = grown_long size ub in
    rw (copy_at_lem [] first g (omega arith)) (
      rw
        (copy_at_lem first end (drop (length first) g)
          (omega (arith, length-drop (length first) g)))
        (ap (λ k. take k (first ++ end ++ drop (length end) (drop (length first) g)))
            (sym (length-append first end))
          ∙ take_append (first ++ end) (drop (length end) (drop (length first) g))))

module _ (D : Deps) where
  -- `UnPacket` makes no calls and leaves the user's state alone.
  pub un_packet_quiet :
      (c : Connection D) (user : D.User) (ub : Bytes) (r : D.Ring)
      → ((un_packet D c user ub r).user ≡ user) × ((un_packet D c user ub r).calls ≡ [])
  unfolding un_packet
  un_packet_quiet c user ub r = ground arith

module _ (D : Deps) (R : RingLaws D) where
  -- One `UnPacket` of the default protocol hands on exactly the bytes of the buffer, in order, also where
  -- the ring wraps and they are joined in the user buffer, whatever that buffer holds and however short
  -- it is; it leaves the buffer empty and gives no context.
  pub un_packet_lem :
      (c : Connection D) (user : D.User) (ub : Bytes) (r : D.Ring)
      → let u = un_packet D c user ub r in
        (u.received ≡ contents D r) × (contents D u.rest ≡ []) × (u.ctx ≡ none)
  unfolding un_packet
  un_packet_lem c user ub r =
      let (first, end) = D.peek_all r in
      elim (Bool-cases (is_nil end)) [
        | inr wraps ↦
            rw (wraps, un_packet) (joined_lem first end ub, R.contents-retrieve_all r, refl)
        | inl flat ↦
            rw (flat, un_packet)
              (
                sym (append-nil first) ∙ ap (λ t. first ++ t) (sym (is_nil→[] end flat)),
                R.contents-retrieve_all r,
                refl,
              )
      ]

  message_full : (u : Unpacked D) → u.ctx ≡ none → is_message u ≡ true → is_nil u.received ≡ false
  message_full u no_ctx h = ground arith

  pub un_packet_progress :
      (c : Connection D) (user : D.User) (ub : Bytes) (r : D.Ring)
      → is_message (un_packet D c user ub r) ≡ true
      → D.ring_length (un_packet D c user ub r).rest < D.ring_length r
  un_packet_progress c user ub r h =
      let u = un_packet D c user ub r in
      let (got, empty, no_ctx) = un_packet_lem c user ub r in
      let full : is_nil (contents D r) ≡ false = ap is_nil (sym got) ∙ message_full u no_ctx h in
      omega (
        arith,
        R.ring_length_lem u.rest,
        R.ring_length_lem r,
        ap length empty,
        is_nil-pos (contents D r) full,
      )

  -- The default protocol meets the interface.
  abbrev pub default_protocol : (D.Data → Bytes) → Protocol D
  default_protocol assert_bytes = record {
    un_packet = un_packet D;
    packet = packet D assert_bytes;
    progress = un_packet_progress;
  }
