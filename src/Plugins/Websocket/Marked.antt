-- ===== src/Plugins/Websocket/Marked.antt =====
-- plugins/websocket/protocol.go with connection.go and context.go: a connection after its handshake, whatever
-- happens to it.
use text.Mathlib.Text.{◌==◌}
use gev.Base.{◌≡◌, Bool, true, not, some}
use gev.Context
use gev.Deps.{Deps, Bytes}
use gev.EventLoop
use gev.Connection.{
  State, Call, call_send, call_close, call_shutdown_write, call_set_context, call_set, call_delete,
  call_other,
}
use gev.Connection.Close.{perform, perform_all}
use gev.Plugins.Websocket.{Ws, un_packet, upgraded_key}

-- The call does not delete the mark.
abbrev pub spares : {D : Deps} → Call D → Bool
spares (call_send v f) = true
spares call_close = true
spares call_shutdown_write = true
spares (call_set_context v) = true
spares (call_set k v) = true
spares (call_delete k) = not (k == upgraded_key)
spares (call_other t) = true

module _ (D : Deps) (S : Ws D) where
  -- The connection at any time after the state `s`: it is given to `UnPacket`, with any buffer; callbacks and
  -- other goroutines call its methods; and anything happens to it that leaves its context alone.
  pub data Later (s : State D) : State D → Type 0 where
    here : Later s s
    unpacked :
        {t : State D}
        → Later s t
        → (ub : Bytes) (r : D.Ring)
        → Later s (perform_all D (un_packet D S t.conn t.user ub r).calls t)
    called : {t : State D} → Later s t → (x : Call D) → spares x ≡ true → Later s (perform D x t)
    elsewhere :
        {t : State D}
        → Later s t
        → (u : State D) → u.conn.key_values ≡ t.conn.key_values
        → Later s u

  abbrev IsMarked : State D → Type 0
  IsMarked t = (v : D.Value) × (Context.get upgraded_key t.conn.key_values ≡ some v)
