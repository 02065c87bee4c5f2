-- ===== src/Windows/Service.antt =====
-- server_std.go: the server itself.
pub mod Accepting
use gev.Base.{ℕ, zero, suc, Bool, true, false, List, [], ◌∷◌, if◌then◌else◌, ℤ, pos, negsuc}

-- The server: its flag, its channel `dying`, and its connections.
pub record Server : Type 0 where
  pub running : Bool
  pub dying : Bool
  pub listening : Bool
  pub connections : List ℕ
  pub num_loops : ℤ

abbrev pub at_least_one : ℤ → ℤ
at_least_one (pos zero) = pos 1
at_least_one (pos (suc n)) = pos (suc n)
at_least_one (negsuc n) = pos 1

-- `Start` up to its wait.
unfoldable pub start : Server → Server
start s = record s { num_loops = at_least_one s.num_loops; running = true }

-- A connection that an accept loop took.
unfoldable pub store : ℕ → Server → Server
store c s = record s { connections = c ∷ s.connections }

-- `Stop`, and the connections that it closes.
unfoldable pub stop : Server → Server × List ℕ
stop s =
    if s.running
    then (record s { dying = true; running = false; listening = false }, s.connections)
    else (s, [])
