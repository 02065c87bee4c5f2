-- ===== src/Server/Setup.antt =====
-- server.go: `NewServer`.
pub mod Complete
use gev.Base.{ℕ, Bool, List, Option, none, some, ℤ, if◌then◌else◌}
use gev.Deps.{Deps, Errno, Result, ok, err}
use gev.Listener.{Net, Listener, ListenError, Listened, listening, failed, new_listener}
use gev.Options.{Options, new_options}
use gev.Server.{Loop, loop_count, new_work_loops}

-- What `NewServer` gives.
pub data Created (D : Deps) (N : Net D.Os) : Type 0 where
  created : Listener D N → List (Loop D) → Created D N
  err_handler_nil : Created D N
  err_listen : ListenError → Created D N
  err_loop : Errno → Created D N

-- What `NewServer` uses of its environment beside the network. `new_timing_wheel` is
-- `timingwheel.NewTimingWheel` of a tick and a wheel size, with `none` where it panics; `can_make` says for
-- which lengths the runtime makes a slice of loops.
pub record Env (Os : Type 0) : Type 0 where
  pub num_cpu : ℕ
  pub new_timing_wheel : ℤ → ℤ → Os → Option Os
  pub can_make : ℕ → Bool

module _ (D : Deps) (N : Net D.Os) (E : Env D.Os) where
  open D use {Os}

  -- The loops; where one cannot be made the listener stays open.
  with_loops : Listener D N → Result (List (Loop D)) × Os → Created D N × Os
  with_loops l (err e, os) = (err_loop e, os)
  with_loops l (ok loops, os) = (created l loops, os)

  -- Behind the listener: `make`, which may panic, and the loops.
  after_listener : ℤ → Listened (Listener D N) × Os → Option (Created D N × Os)
  unfolding with_loops
  after_listener num_loops (failed e, os) = some (err_listen e, os)
  after_listener num_loops (listening l, os) =
      if E.can_make (loop_count num_loops E.num_cpu)
      then some (with_loops l (new_work_loops D num_loops E.num_cpu os))
      else none

  listened : ℤ → Option (Listened (Listener D N) × Os) → Option (Created D N × Os)
  unfolding after_listener
  listened num_loops none = none
  listened num_loops (some r) = after_listener num_loops r

  -- Behind the timing wheel.
  with_wheel : {P S : Type 0} → Options P S → Option Os → Option (Created D N × Os)
  unfolding listened
  with_wheel o none = none
  with_wheel o (some os) =
      listened o.num_loops (new_listener D N o.network o.address o.reuse_port os)

  -- `none` is a panic. The options are functions, none of them nil.
  unfoldable pub new_server :
      {P S : Type 0}
      → P
      → S
      → Bool
      → List (Options P S → Options P S)
      → Os
      → Option (Created D N × Os)
  unfolding with_wheel
  new_server default_protocol round_robin handler_is_nil opts os =
      let o = new_options default_protocol round_robin opts in
      if handler_is_nil
      then some (err_handler_nil, os)
      else with_wheel o (E.new_timing_wheel o.tick o.wheel_size os)
