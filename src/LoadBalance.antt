-- ===== src/LoadBalance.antt =====
-- load_balance.go: the two strategies that choose a loop for a new connection. A loop is of any type
-- with a count of connections; `none` is the panic of an index out of range, or of a division by 0.
pub mod Fairness
use gev.Base.{
  ℕ, zero, suc, ◌+◌, ◌%◌, Bool, Option, none, some, List, [], ◌∷◌, if◌then◌else◌, ltb_ℤ, ℤ, length,
  get_elem?,
}

module _ {L : Type 0} where
  -- One call of the function that `RoundRobin` gives: `nextLoopIndex` is its state.
  unfoldable pub round_robin : ℕ → List L → Option (L × ℕ)
  round_robin next_loop_index loops = elim (get_elem? loops next_loop_index) [
    | none ↦ none
    | some l ↦ some (l, (next_loop_index + 1) % length loops)
  ]

  -- The loop over the rest, with the best so far.
  pub least_from : (L → ℤ) → L → List L → L
  least_from count l [] = l
  least_from count l (x ∷ xs) = least_from count (if ltb_ℤ (count x) (count l) then x else l) xs

  unfoldable pub least_connection : (L → ℤ) → List L → Option L
  unfolding least_from
  least_connection count [] = none
  least_connection count (l ∷ ls) = some (least_from count l ls)

  -- The calls that a server makes in turn.
  pub round_robin_picks : ℕ → ℕ → List L → Option (List L × ℕ)
  unfolding round_robin
  round_robin_picks zero next loops = some ([], next)
  round_robin_picks (suc k) next loops = elim (round_robin next loops) [
    | none ↦ none
    | some (l, next') ↦ elim (round_robin_picks k next' loops) [
      | none ↦ none
      | some (ls, last) ↦ some (l ∷ ls, last)
    ]
  ]
