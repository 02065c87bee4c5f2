-- ===== src/Connection/Closed.antt =====
-- connection.go: a connection after `handleClose`, as every later call on it finds it.
use gev.Base.{ℕ, ◌≡◌, false, Option, some, arith, inl, inr, Bool-cases}
use gev.Deps.{Deps}
use gev.Protocol.{Protocol}
use gev.Connection.{State, Handler}
use gev.Connection.Close.{handle_close, send, close, err_connection_closed}
use gev.Connection.Close.Once.{handle_close_lem}
use gev.Connection.Send.{run_send}
use gev.Connection.Idle.{close_timeout_conn}

module _ (D : Deps) (H : Handler D) where
  pub handle_close_connected :
      (fd : ℕ) (s : State D) → (handle_close D H fd s).conn.connected ≡ false
  unfolding handle_close
  handle_close_connected fd s = elim (Bool-cases s.conn.connected) [
    | inl up ↦ (handle_close_lem D H fd s up).0
    | inr down ↦ ground arith
  ]

  pub handle_close_idle :
      (fd : ℕ) (t : State D) → t.conn.connected ≡ false → handle_close D H fd t ≡ t
  unfolding handle_close
  handle_close_idle fd t down = ground arith

  -- What a closed connection answers.
  pub closed_lem :
      (P : Protocol D) (fd : ℕ) (v : D.Data) (f : Option ℕ) (t : State D)
      → t.conn.connected ≡ false
      → (handle_close D H fd t ≡ t)
        × (run_send D H P v f t ≡ t)
        × (send D v f t ≡ (some err_connection_closed, t))
        × (close D t ≡ (some err_connection_closed, t))
        × (close_timeout_conn D t ≡ t)
  unfolding run_send send close close_timeout_conn
  closed_lem P fd v f t down =
      (handle_close_idle fd t down, ground arith, ground arith, ground arith, ground arith)

  -- After `handleClose`, whatever the user's `OnClose` called: a second `handleClose` (so a second
  -- `OnClose` and a second close of the descriptor), a send that was queued before, and the idle timer
  -- change nothing, and `Send` and `Close` report a closed connection and change nothing.
  pub handle_close_silences :
      (P : Protocol D) (fd again : ℕ) (v : D.Data) (f : Option ℕ) (s : State D)
      → let t = handle_close D H fd s in
        (handle_close D H again t ≡ t)
        × (run_send D H P v f t ≡ t)
        × (send D v f t ≡ (some err_connection_closed, t))
        × (close D t ≡ (some err_connection_closed, t))
        × (close_timeout_conn D t ≡ t)
  handle_close_silences P fd again v f s =
      closed_lem P again v f (handle_close D H fd s) (handle_close_connected fd s)
