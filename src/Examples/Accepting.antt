-- ===== src/Examples/Accepting.antt =====
-- server_std.go: a server for Windows with one accept loop, one connection of which was accepted.
use gev.Base.{ℕ, Bool, [], ◌≡◌, ◌⊎◌, refl, true, false, has, pos}
use gev.Windows.Service.{start}
use gev.Windows.Service.Accepting.{
  StopPc, taken, accepting, finished, uncalled, System, with_loop, with_stop, accept, new_system,
  set_running, loop_goes_on, accepts, stop_tests, close_dying, clear_running, close_listener,
  range_begins, range_ends, tested, shut, cleared, closed, visiting, Reach, here, next,
}
use gev.Windows.Service.Accepting.Stopped.{Reach-finished}
use gev.Windows.Service.Accepting.Missed.{Reach-missed}

abbrev running : System
running = record (new_system (pos 1)) { server = start (new_system (pos 1)).server }

abbrev at_accept : System
at_accept = with_loop 0 accepting running

abbrev accepted : System
accepted = accept 0 at_accept

accepted-Reach : Reach (new_system (pos 1)) accepted
unfolding start accept
accepted-Reach =
    next
      (next {u = at_accept} (next {u = running} here (set_running refl refl refl))
        (loop_goes_on 0 refl refl refl))
      (accepts 0 refl refl refl)

-- `Stop`, which finds no connection in the map.
abbrev stopping : StopPc → Bool → Bool → Bool → System
stopping pc running dying listening =
    let v = accepted.server in
    with_stop (record v { running = running; dying = dying; listening = listening }) pc accepted

closed-Reach : Reach (new_system (pos 1)) (stopping closed false true false)
unfolding start accept
closed-Reach =
    let tests =
      next {u = stopping tested true false true} accepted-Reach (stop_tests refl refl refl) in
    let shuts = next {u = stopping shut true true true} tests (close_dying _ refl refl refl) in
    let clears =
      next {u = stopping cleared false true true} shuts (clear_running _ refl refl refl) in
    next clears (close_listener _ refl refl refl)

abbrev stopped : System
stopped = stopping finished false true false

stopped-Reach : Reach (new_system (pos 1)) stopped
unfolding start accept
stopped-Reach =
    next
      (next {u = stopping (visiting []) false true false} closed-Reach
        (range_begins [] refl (λ c. refl) refl))
      (range_ends refl refl)

still_open : stopped.open_conn 0 ≡ true
unfolding accept
still_open = refl

Reach-finished_example :
    (has 0 stopped.found ≡ false)
    × ((has 0 stopped.server.connections ≡ true) ⊎ ((i : ℕ) × (stopped.loops i ≡ taken 0)))
Reach-finished_example = Reach-finished (pos 1) stopped stopped-Reach refl 0 still_open

held : accepted.loops 0 ≡ taken 0
unfolding accept
held = refl

accepted_open : accepted.open_conn 0 ≡ true
unfolding accept
accepted_open = refl

not_stored : has 0 accepted.server.connections ≡ false
unfolding accept start has
not_stored = refl

not_stopping : accepted.stopping ≡ uncalled
unfolding accept
not_stopping = refl

accepted_running : accepted.server.running ≡ true
unfolding accept start
accepted_running = refl

Reach-missed_example :
    (t : System) × Reach accepted t
    × (t.stopping ≡ finished)
    × (t.open_conn 0 ≡ true)
    × (has 0 t.server.connections ≡ true)
Reach-missed_example =
    Reach-missed 0 0 accepted held accepted_open not_stored not_stopping accepted_running
