-- ===== src/Windows/Service/Accepting/Sound.antt =====
-- server_std.go: which connections the map, the accept loops and `Stop` have, as each of them moves.
use gev.Base.{
  ℕ, suc, ◌<◌, ◌≡◌, refl, sym, ap, ◌∙◌, subst, ◌⊎◌, inl, inr, Bool, true, false, List, [], ◌∷◌, has,
  update, arith, ==_iff, ==_refl, Bool-cases, ◌==◌, if◌then◌else◌,
}
use gev.Windows.Service.Accepting.{LoopPc, selecting, taken, StopPc, finished, visiting}

-- Where `Stop` is at its `Range` or has ended it: the connections that it has yet to visit.
abbrev pub left_of : StopPc → List ℕ → List ℕ
left_of (visiting left) found = left
left_of finished found = []
left_of _ found = found

-- A connection that is open is in the map, or with the loop that took it; and where `Stop` found it, `Stop`
-- has yet to visit it.
pub record Sound (open_conn : ℕ → Bool) (n : ℕ) (loops : ℕ → LoopPc) (stored found left : List ℕ)
    : Type 0 where
  pub owned : (c : ℕ) → open_conn c ≡ true → (has c stored ≡ true) ⊎ ((i : ℕ) × (loops i ≡ taken c))
  pub visited : (c : ℕ) → open_conn c ≡ true → has c found ≡ true → has c left ≡ true
  pub stored_below : (c : ℕ) → has c stored ≡ true → c < n
  pub taken_below : (i c : ℕ) → loops i ≡ taken c → c < n
  pub found_below : (c : ℕ) → has c found ≡ true → c < n

abbrev pub is_taken : LoopPc → Bool
is_taken (taken c) = true
is_taken _ = false

not_taken : (pc : LoopPc) (c : ℕ) → is_taken pc ≡ false → pc ≡ taken c → ⊥
not_taken pc c free h = ground arith

taken-inj : (c d : ℕ) → taken c ≡ taken d → c ≡ d
taken-inj c d h = cc

-- A loop that has taken no connection moves.
keep_taken :
    (i j c : ℕ) (pc : LoopPc) (loops : ℕ → LoopPc)
    → is_taken (loops i) ≡ false
    → loops j ≡ taken c
    → update i pc loops j ≡ taken c
keep_taken i j c pc loops free h = elim (Bool-cases (j == i)) [
  | inr other ↦ rw other h
  | inl same ↦ absurd (not_taken (loops i) c free (ap loops (sym ((==_iff j i).0 same)) ∙ h))
]

-- What a loop has taken after another one, or itself, moved.
was_taken :
    (i j c : ℕ) (pc : LoopPc) (loops : ℕ → LoopPc)
    → update i pc loops j ≡ taken c
    → (loops j ≡ taken c) ⊎ (pc ≡ taken c)
was_taken i j c pc loops h = elim (Bool-cases (j == i)) [
  | inl same ↦ inr (ap (λ b. if b then pc else loops j) (sym same) ∙ h)
  | inr other ↦ inl (ap (λ b. if b then pc else loops j) (sym other) ∙ h)
]

not_closed :
    (c d : ℕ) (open_conn : ℕ → Bool) → update d false open_conn c ≡ true → open_conn c ≡ true
not_closed c d open_conn h = ground arith

not_same : (c d : ℕ) (open_conn : ℕ → Bool) → update d false open_conn c ≡ true → (c == d) ≡ false
not_same c d open_conn h = ground arith

module _ {open_conn : ℕ → Bool} {n : ℕ} {loops : ℕ → LoopPc} {stored found left : List ℕ} where
  -- A connection is closed, which `Stop` may have visited.
  pub Sound-close :
      (d : ℕ) (left' : List ℕ)
      → ((c : ℕ) → (c == d) ≡ false → has c left ≡ true → has c left' ≡ true)
      → Sound open_conn n loops stored found left
      → Sound (update d false open_conn) n loops stored found left'
  Sound-close d left' keep v = record {
    owned = λ c h. v.owned c (not_closed c d open_conn h);
    visited =
        λ c h f. keep c (not_same c d open_conn h) (v.visited c (not_closed c d open_conn h) f);
    stored_below = v.stored_below;
    taken_below = v.taken_below;
    found_below = v.found_below;
  }

  -- A loop moves on to a place where it has no connection.
  pub Sound-move :
      (i : ℕ) (pc : LoopPc)
      → is_taken (loops i) ≡ false
      → is_taken pc ≡ false
      → Sound open_conn n loops stored found left
      → Sound open_conn n (update i pc loops) stored found left
  Sound-move i pc free after v = record {
    owned = λ c h. elim (v.owned c h) [
      | inl at_map ↦ inl at_map
      | inr (j, at_loop) ↦ inr (j, keep_taken i j c pc loops free at_loop)
    ];
    visited = v.visited;
    stored_below = v.stored_below;
    taken_below = λ j c h. elim (was_taken i j c pc loops h) [
      | inl old ↦ v.taken_below j c old
      | inr new ↦ absurd (not_taken pc c after new)
    ];
    found_below = v.found_below;
  }

  pub Sound-accept :
      (i : ℕ)
      → is_taken (loops i) ≡ false
      → Sound open_conn n loops stored found left
      → Sound (update n true open_conn) (suc n) (update i (taken n) loops) stored found left
  Sound-accept i free v = record {
    owned = λ c h. elim (Bool-cases (c == n)) [
      | inl new ↦ inr (i, rw (==_refl i, (==_iff c n).0 new) refl)
      | inr old ↦ elim (v.owned c (ap (λ b. if b then true else open_conn c) (sym old) ∙ h)) [
        | inl at_map ↦ inl at_map
        | inr (j, at_loop) ↦ inr (j, keep_taken i j c (taken n) loops free at_loop)
      ]
    ];
    visited = λ c h f. v.visited c (ground (arith, v.found_below c f)) f;
    stored_below = λ c h. omega (arith, v.stored_below c h);
    taken_below = λ j c h. elim (was_taken i j c (taken n) loops h) [
      | inl old ↦ omega (arith, v.taken_below j c old)
      | inr new ↦ omega (arith, taken-inj n c new)
    ];
    found_below = λ c h. omega (arith, v.found_below c h);
  }

  pub Sound-store :
      (i d : ℕ)
      → loops i ≡ taken d
      → Sound open_conn n loops stored found left
      → Sound open_conn n (update i selecting loops) (d ∷ stored) found left
  unfolding has
  Sound-store i d p v = record {
    owned = λ c h. elim (v.owned c h) [
      | inl at_map ↦ inl (ground (arith, at_map))
      | inr (j, at_loop) ↦ elim (Bool-cases (j == i)) [
        | inl same ↦ inl (
            rw (
              (==_iff d c).1
                (taken-inj d c (sym p ∙ ap loops (sym ((==_iff j i).0 same)) ∙ at_loop))))
        | inr other ↦ inr (j, rw other at_loop)
      ]
    ];
    visited = v.visited;
    stored_below = λ c h. ground (arith, v.taken_below i d p, v.stored_below c);
    taken_below = λ j c h. elim (was_taken i j c selecting loops h) [
      | inl old ↦ v.taken_below j c old
      | inr new ↦ absurd (not_taken selecting c refl new)
    ];
    found_below = v.found_below;
  }

  -- `Range` begins.
  pub Sound-found :
      (left' : List ℕ)
      → ((c : ℕ) → has c left' ≡ has c stored)
      → Sound open_conn n loops stored found left
      → Sound open_conn n loops stored stored left'
  Sound-found left' same v = record {
    owned = v.owned;
    visited = λ c h f. same c ∙ f;
    stored_below = v.stored_below;
    taken_below = v.taken_below;
    found_below = v.stored_below;
  }

  pub Sound-left :
      {left' : List ℕ}
      → left ≡ left'
      → Sound open_conn n loops stored found left
      → Sound open_conn n loops stored found left'
  Sound-left e v = subst (Sound open_conn n loops stored found) e v
