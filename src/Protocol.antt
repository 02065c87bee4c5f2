-- ===== src/Protocol.antt =====
-- protocol.go: the interface of a protocol, and the default protocol, which hands on all that is read.
pub mod Default
use gev.Base.{ℕ, ◌<◌, ◌≡◌, Bool, true, false, not, ◌||◌, is_some, is_nil}
use gev.Deps.{Deps, Bytes}
use gev.Connection.{Connection, Unpacked}

-- `ctx != nil || len(receivedData) != 0`.
abbrev pub is_message : {D : Deps} → Unpacked D → Bool
is_message u = is_some u.ctx || not (is_nil u.received)

pub record Protocol (D : Deps) : Type 0 where
  pub un_packet : Connection D → D.User → Bytes → D.Ring → Unpacked D
  pub packet : Connection D → D.Data → Bytes
  -- A call that gives a message takes bytes from the buffer: without this the caller never ends.
  pub progress :
      (c : Connection D) (user : D.User) (ub : Bytes) (r : D.Ring)
      → is_message (un_packet c user ub r) ≡ true
      → D.ring_length (un_packet c user ub r).rest < D.ring_length r
