-- ===== src/Connection/Read/Reference.antt =====
-- connection.go: `handleRead` parses the bytes it has read in place where no bytes wait, and appends them to
-- `inBuffer` where some do. The reference always appends; here the states that the two lead to are compared.
pub mod Blur
pub mod Equivalence
use gev.Base.{
  ℕ, zero, suc, ◌≡◌, refl, sym, ap, ◌∙◌, Bool, true, false, [], ◌++◌, Option, none, some, subst,
  Bool-cases, inl, inr,
}
use gev.Deps.{Deps, Bytes}
use gev.Deps.Laws.{contents}
use gev.Connection.{Connection, State, Handler}
use gev.Connection.Read.{pending, handler_protocol}
use gev.Protocol.{Protocol, is_message}

module _ (D : Deps) where
  -- The bytes read are appended to `inBuffer`, and parsed there.
  unfoldable pub deliver_reference : Handler D → Protocol D → Bytes → State D → Bytes × State D
  deliver_reference H P bts s =
      let c = s.conn in
      handler_protocol D H P pending
        (record s { conn = record c { in_buffer = D.ring_write bts c.in_buffer } })

  -- The same connection with other buffers to read from.
  abbrev pub blur_conn : D.Ring → D.Ring → Connection D → Connection D
  blur_conn b i c = record c { buffer = b; in_buffer = i }

  -- The same state with such a connection, and with another user buffer.
  abbrev pub blur : D.Ring → D.Ring → Bytes → State D → State D
  blur b i ub s =
      let l = s.loop in
      record s { conn = blur_conn b i s.conn; loop = record l { user_buffer = ub } }

  -- A ring that does not wrap.
  abbrev pub IsFlat : D.Ring → Type 0
  IsFlat r = (D.peek_all r).1 ≡ []

  -- A protocol and a handler that do not look at the buffers, but that `UnPacket` is given the bytes of one;
  -- and that what `UnPacket` leaves of a ring which does not wrap does not wrap either.
  pub record IsBlind (H : Handler D) (P : Protocol D) : Type 0 where
    pub blind_message :
        (b i : D.Ring) (c : Connection D) (ctx : Option D.Ctx) (bts : Bytes) (user : D.User)
        → H.on_message (blur_conn b i c) ctx bts user ≡ H.on_message c ctx bts user
    pub blind_packet :
        (b i : D.Ring) (c : Connection D) (v : D.Data) → P.packet (blur_conn b i c) v ≡ P.packet c v
    pub blind_un_packet :
        (b i : D.Ring) (c : Connection D) (user : D.User) (ub ub' : Bytes) (r r' : D.Ring)
        → contents D r' ≡ contents D r
        → let u = P.un_packet c user ub r in
          let u' = P.un_packet (blur_conn b i c) user ub' r' in
          (u'.ctx ≡ u.ctx)
          × (u'.received ≡ u.received)
          × (u'.user ≡ u.user)
          × (u'.calls ≡ u.calls)
          × (contents D u'.rest ≡ contents D u.rest)
    pub flat_rest :
        (c : Connection D) (user : D.User) (ub : Bytes) (r : D.Ring)
        → IsFlat r
        → IsFlat (P.un_packet c user ub r).rest

  -- Two states that differ in their buffers alone: what the first still holds of what was read stands in
  -- its `buffer`, which does not wrap, with nothing in `inBuffer`; in the second it stands in `inBuffer`.
  pub record Matched (s t : State D) : Type 0 where
    pub buf : D.Ring
    pub inb : D.Ring
    pub ub : Bytes
    pub same : t ≡ blur buf inb ub s
    pub held : contents D inb ≡ contents D s.conn.buffer
    pub flat : IsFlat s.conn.buffer
    pub idle : contents D s.conn.in_buffer ≡ []
