-- ===== src/LoadBalance/Fairness.antt =====
-- load_balance.go: the loops that the strategies choose.
use gev.Base.{
  ℕ, zero, suc, ◌+◌, ◌%◌, ◌<◌, ◌≡◌, refl, sym, ap, ◌∙◌, none, some, List, [], ◌∷◌, arith,
  if◌then◌else◌, ltb_ℤ, ℤ, ◌≤ℤ◌, length, get_elem?, inl, inr, Bool-cases,
}
use native.Mathlib.Nat.{mod-lt, mod-eq_of_lt, mod_self, mod-add-mod}
use gev.Base.{◌⊎◌, dec_lt}
use gev.LoadBalance.{round_robin, round_robin_picks, least_from, least_connection}

next_index :
    (next n : ℕ)
    → next < n
    → ((next + 1) % n < n) × (((next + 1) % n ≡ next + 1) ⊎ (((next + 1) % n ≡ 0) × (next + 1 ≡ n)))
next_index next n h = elim (dec_lt (next + 1) n) [
  | yes more ↦ (mod-lt (next + 1) (omega arith), inl (mod-eq_of_lt more))
  | no last ↦
      let e : next + 1 ≡ n = omega arith in
      (mod-lt (next + 1) (omega arith), inr (rw e (mod_self n), e))
]

module _ {L : Type 0} where
  get_elem?-below : (ls : List L) (i : ℕ) → i < length ls → (l : L) × (get_elem? ls i ≡ some l)
  get_elem?-below [] i h = elim h [ ]
  get_elem?-below (x ∷ xs) zero h = (x, refl)
  get_elem?-below (x ∷ xs) (suc i) h = get_elem?-below xs i (omega arith)

  round_robin_lem :
      (next : ℕ) (loops : List L)
      → next < length loops
      → (l : L) × (round_robin next loops ≡ some (l, (next + 1) % length loops))
        × (get_elem? loops next ≡ some l)
  unfolding round_robin
  round_robin_lem next loops h =
      let (l, e) = get_elem?-below loops next h in (l, rw (e, round_robin), e)

  -- The picks of `k` more calls behind one.
  each_pick :
      (k next : ℕ) (l : L) (loops ls : List L)
      → next < length loops
      → get_elem? loops next ≡ some l
      → ((i : ℕ)
          → i < k
          → get_elem? ls i ≡ get_elem? loops (((next + 1) % length loops + i) % length loops))
      → (i : ℕ) → i < suc k
      → get_elem? (l ∷ ls) i ≡ get_elem? loops ((next + i) % length loops)
  each_pick k next l loops ls h here each zero lt =
      let e : (next + 0) % length loops ≡ next =
        ap (λ t. t % length loops) (omega arith) ∙ mod-eq_of_lt h in
      sym here ∙ ap (get_elem? loops) (sym e)
  each_pick k next l loops ls h here each (suc i) lt =
      let n = length loops in
      each i (omega arith)
      ∙ ap (get_elem? loops) (mod-add-mod (next + 1) n i ∙ ap (λ t. t % n) (omega arith))

  picks_from :
      (k next : ℕ) (loops : List L)
      → next < length loops
      → (ls : List L) × (last : ℕ) × (round_robin_picks k next loops ≡ some (ls, last))
        × (length ls ≡ k)
        × ((i : ℕ) → i < k → get_elem? ls i ≡ get_elem? loops ((next + i) % length loops))
  unfolding round_robin_picks
  picks_from zero next loops h = ([], next, refl, refl, λ i lt. absurd (omega arith))
  picks_from (suc k) next loops h =
      let (l, picked, here) = round_robin_lem next loops h in
      let (ls, last, more, long, each) =
        picks_from k ((next + 1) % length loops) loops (next_index next (length loops) h).0 in
      (
        l ∷ ls,
        last,
        rw (picked, round_robin_picks) (rw (more, round_robin_picks)),
        ap suc long,
        each_pick k next l loops ls h here each,
      )

  -- With at least one loop the strategy that `RoundRobin` gives never panics, and it takes the loops in
  -- turn for ever: its call number `i`, counted from 0, gives the loop at `i % len(loops)`.
  pub round_robin_picks_lem :
      (k : ℕ) (loops : List L)
      → 0 < length loops
      → (ls : List L) × (last : ℕ) × (round_robin_picks k 0 loops ≡ some (ls, last))
        × (length ls ≡ k)
        × ((i : ℕ) → i < k → get_elem? ls i ≡ get_elem? loops (i % length loops))
  round_robin_picks_lem k loops h =
      let (ls, last, picked, long, each) = picks_from k 0 loops h in
      (
        ls,
        last,
        picked,
        long,
        λ i lt. each i lt ∙ ap (λ t. get_elem? loops (t % length loops)) (omega arith),
      )

  -- The result of `LeastConnection` against every loop it saw.
  least_from_le : (count : L → ℤ) (l : L) (ls : List L) → count (least_from count l ls) ≤ℤ count l
  unfolding least_from
  least_from_le count l [] = omega arith
  least_from_le count l (x ∷ xs) = elim (Bool-cases (ltb_ℤ (count x) (count l))) [
    | inl less ↦ rw (less, least_from) (ground (arith, least_from_le count x xs))
    | inr more ↦ rw (more, least_from) (least_from_le count l xs)
  ]

  least_from_all :
      (count : L → ℤ) (l : L) (ls : List L) (j : ℕ) (x : L)
      → get_elem? ls j ≡ some x
      → count (least_from count l ls) ≤ℤ count x
  unfolding least_from
  least_from_all count l [] j x e = cc
  least_from_all count l (y ∷ ys) zero x e = elim (Bool-cases (ltb_ℤ (count y) (count l))) [
    | inl less ↦ rw (less, least_from) (ground (arith, least_from_le count y ys))
    | inr more ↦ rw (more, least_from) (ground (arith, least_from_le count l ys))
  ]
  least_from_all count l (y ∷ ys) (suc j) x e =
      least_from_all count (if ltb_ℤ (count y) (count l) then y else l) ys j x e

  least_from_in :
      (count : L → ℤ) (l : L) (ls : List L)
      → (i : ℕ) × (get_elem? (l ∷ ls) i ≡ some (least_from count l ls))
  unfolding least_from
  least_from_in count l [] = (0, refl)
  least_from_in count l (y ∷ ys) = elim (Bool-cases (ltb_ℤ (count y) (count l))) [
    | inl less ↦ let (i, e) = least_from_in count y ys in (suc i, rw (less, least_from) e)
    | inr more ↦ rw (more, least_from) (skip (least_from_in count l ys))
  ]
    where
      skip :
          ((i : ℕ) × (get_elem? (l ∷ ys) i ≡ some (least_from count l ys)))
          → (i : ℕ) × (get_elem? (l ∷ y ∷ ys) i ≡ some (least_from count l ys))
      skip (zero, e) = (zero, e)
      skip (suc i, e) = (suc (suc i), e)

  -- With at least one loop `LeastConnection` gives one of the loops that it is handed, and none of them
  -- has fewer connections than that one; with no loop it panics.
  pub least_connection_lem :
      (count : L → ℤ) (loops : List L)
      → ((loops ≡ []) × (least_connection count loops ≡ none))
        ⊎ ((l : L) × (least_connection count loops ≡ some l)
            × ((i : ℕ) × (get_elem? loops i ≡ some l))
            × ((j : ℕ) (x : L) → get_elem? loops j ≡ some x → count l ≤ℤ count x))
  unfolding least_connection
  least_connection_lem count [] = inl (refl, refl)
  least_connection_lem count (l ∷ ls) =
      inr (least_from count l ls, refl, least_from_in count l ls, λ j x e. all j x e)
    where
      all :
          (j : ℕ) (x : L) → get_elem? (l ∷ ls) j ≡ some x → count (least_from count l ls) ≤ℤ count x
      all zero x e = ground (arith, least_from_le count l ls)
      all (suc j) x e = least_from_all count l ls j x e
