-- ===== src/Server/Setup/Complete.antt =====
-- server.go and listener.go: `NewServer` with every outcome.
use gev.Base.{ℕ, Option, ◌≡◌, some, length}
use gev.Deps.{Deps}
use gev.Listener.{Net, Listener}
use gev.Options.{Options}
use gev.Server.Creation.{AllFresh}
use gev.Server.Setup.{Created, created, err_handler_nil, err_listen, err_loop, Env}

module _ (D : Deps) (N : Net D.Os) (E : Env D.Os) where
  -- A server that was made has this many loops, none with a socket.
  abbrev pub IsComplete : ℕ → Created D N → Type 0
  IsComplete n (created l ls) = (length ls ≡ n) × AllFresh D ls
  IsComplete n err_handler_nil = Unit {0}
  IsComplete n (err_listen e) = Unit {0}
  IsComplete n (err_loop e) = Unit {0}

  -- A result without a panic.
  abbrev Gives : ℕ → Option (Created D N × D.Os) → Type 0
  Gives n o = (r : Created D N) × (os' : D.Os) × (o ≡ some (r, os')) × IsComplete n r
