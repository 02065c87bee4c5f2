-- ===== src/Examples/Closers.antt =====
-- server_std.go: `Close` by two goroutines.
use gev.Base.{ℕ, ◌≡◌, ◌≢◌, ◌≤◌, refl, true, false, arith}
use gev.Windows.Closers.{
  shut, tested, panicked, Shared, move, test_open, close_dying, start, Reach, here, next,
}
use gev.Windows.Closers.Once.{Reach-closes, Reach-panicked}

-- One goroutine tests and closes the channel.
abbrev begun : Shared
begun = record start { dying = true; pc = move 0 shut (move 0 tested start.pc) }

begun-Reach : Reach start begun
begun-Reach = next (next here (test_open 0 refl refl)) (close_dying 0 refl refl)

Reach-closes_example : (begun.closes ≤ 1) × (begun.dying ≡ false → begun.closes ≡ 0)
Reach-closes_example = Reach-closes begun-Reach

abbrev first_call : ℕ
first_call = 0

differ : first_call ≢ 1
differ h = absurd (omega (arith, h))

Reach-panicked_example : (t : Shared) × Reach start t × (t.pc 1 ≡ panicked)
Reach-panicked_example = Reach-panicked 0 1 start differ refl refl refl refl
