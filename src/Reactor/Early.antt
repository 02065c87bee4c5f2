-- ===== src/Reactor/Early.antt =====
-- server.go with connection.go: the timer of a new connection that runs before `handleNewConnection` has queued
-- its registration.
use Prim.Native.String.{String}
use gev.Base.{◌+◌, ◌*◌, ◌≡◌, true, leb}
use gev.Deps.{Deps}
use gev.Protocol.{Protocol}
use gev.Connection.{State}
use gev.Connection.Event.{second}

module _ (D : Deps) where
  -- The idle time of a connection is over.
  abbrev pub IdleOver : State D → Type 0
  IdleOver s = leb (s.conn.active_time * second + s.conn.idle_time) (D.now s.os) ≡ true
