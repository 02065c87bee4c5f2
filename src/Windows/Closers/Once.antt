-- ===== src/Windows/Closers/Once.antt =====
-- server_std.go: how often `OnClose` is called, and the panic of two goroutines that close one connection.
use gev.Base.{
  ℕ, ◌+◌, ◌≡◌, ◌≢◌, ◌≤◌, refl, sym, ap, ◌∙◌, Bool, true, false, ◌==◌, ==_iff, ==_refl,
  if◌then◌else◌, arith, inl, inr, Bool-cases,
}
use gev.Windows.Closers.{
  Pc, ready, tested, shut, cleared, returned, panicked, Shared, move, Step, test_open, test_closed,
  close_dying, close_again, clear, call_on_close, start, Reach, here, next,
}

-- A goroutine that has closed the channel and not yet called `OnClose`.
abbrev is_closing : Pc → Bool
is_closing shut = true
is_closing cleared = true
is_closing _ = false

-- The channel is open, and no goroutine closes or has called `OnClose`; or one closes it and none has; or `OnClose`
-- was called once, and none closes.
data Inv (s : Shared) : Type 0 where
  untouched : s.dying ≡ false → s.closes ≡ 0 → ((i : ℕ) → is_closing (s.pc i) ≡ false) → Inv s
  closing :
      (i : ℕ)
      → s.dying ≡ true
      → s.closes ≡ 0
      → ((j : ℕ) → is_closing (s.pc j) ≡ true → j ≡ i)
      → Inv s
  finished : s.dying ≡ true → s.closes ≡ 1 → ((i : ℕ) → is_closing (s.pc i) ≡ false) → Inv s

-- The others stay where they are.
move_other :
    (i : ℕ) (p : Pc) (pc : ℕ → Pc)
    → is_closing p ≡ false
    → ((k : ℕ) → is_closing (pc k) ≡ false)
    → (k : ℕ) → is_closing (move i p pc k) ≡ false
move_other i p pc h all k = elim (Bool-cases (k == i)) [ inl e ↦ rw e h | inr e ↦ rw e (all k) ]

-- Of those that may be closing, one at most.
Only : ℕ → (ℕ → Pc) → Type 0
Only i pc = (j : ℕ) → is_closing (pc j) ≡ true → j ≡ i

none_closing :
    (i : ℕ) (pc : ℕ → Pc) → is_closing (pc i) ≡ true → ((k : ℕ) → is_closing (pc k) ≡ false) → ⊥
none_closing i pc h all = ground (arith, all i)

move-Only :
    (i k : ℕ) (p : Pc) (pc : ℕ → Pc)
    → (is_closing p ≡ true → k ≡ i)
    → Only i pc
    → Only i (move k p pc)
unfolding Only
move-Only i k p pc h only j busy = elim (Bool-cases (j == k)) [
  | inl e ↦ (==_iff j k).0 e ∙ h (ap (λ b. is_closing (if b then p else pc j)) (sym e) ∙ busy)
  | inr e ↦ only j (ap (λ b. is_closing (if b then p else pc j)) (sym e) ∙ busy)
]

first-Only : (k : ℕ) (pc : ℕ → Pc) → ((j : ℕ) → is_closing (pc j) ≡ false) → Only k pc
unfolding Only
first-Only k pc all j busy = absurd (none_closing j pc busy all)

last_leaves :
    (i : ℕ) (pc : ℕ → Pc) → Only i pc → (j : ℕ) → is_closing (move i returned pc j) ≡ false
unfolding Only
last_leaves i pc only j = elim (Bool-cases (j == i)) [
  | inl e ↦ rw e refl
  | inr e ↦ elim (Bool-cases (is_closing (pc j))) [
    | inl busy ↦ absurd (other j i (only j busy) e)
    | inr idle ↦ rw e idle
  ]
]
  where
    other : (j i : ℕ) → j ≡ i → (j == i) ≡ false → ⊥
    other j i h e = ground (arith, h, e)

Step-Inv : {s t : Shared} → Inv s → Step s t → Inv t
unfolding Only
Step-Inv {s} (untouched d c all) (test_open i at up) =
    untouched d c (move_other i tested s.pc refl all)
Step-Inv {s} (untouched d c all) (test_closed i at down) =
    untouched d c (move_other i returned s.pc refl all)
Step-Inv {s} (untouched d c all) (close_dying i at opened) =
    closing i refl c (move-Only i i shut s.pc (λ h. refl) (first-Only i s.pc all))
Step-Inv {s} (untouched d c all) (close_again i at gone) = absurd (none_true (sym d ∙ gone))
  where
    none_true : false ≡ true → ⊥
    none_true h = cc
Step-Inv {s} (untouched d c all) (clear i at) = absurd (none_closing i s.pc (ap is_closing at) all)
Step-Inv {s} (untouched d c all) (call_on_close i at) =
    absurd (none_closing i s.pc (ap is_closing at) all)
Step-Inv {s} (closing k d c only) (test_open i at up) =
    closing k d c (move-Only k i tested s.pc (λ h. cc) only)
Step-Inv {s} (closing k d c only) (test_closed i at down) =
    closing k d c (move-Only k i returned s.pc (λ h. cc) only)
Step-Inv {s} (closing k d c only) (close_dying i at opened) = cc
Step-Inv {s} (closing k d c only) (close_again i at gone) =
    closing k d c (move-Only k i panicked s.pc (λ h. cc) only)
Step-Inv {s} (closing k d c only) (clear i at) =
    closing k d c (move-Only k i cleared s.pc (λ h. only i (ap is_closing at)) only)
Step-Inv {s} (closing k d c only) (call_on_close i at) =
    finished d (ap (λ n. n + 1) c)
      (last_leaves i s.pc (λ j h. only j h ∙ sym (only i (ap is_closing at))))
Step-Inv {s} (finished d c all) (test_open i at up) =
    finished d c (move_other i tested s.pc refl all)
Step-Inv {s} (finished d c all) (test_closed i at down) =
    finished d c (move_other i returned s.pc refl all)
Step-Inv {s} (finished d c all) (close_dying i at opened) = cc
Step-Inv {s} (finished d c all) (close_again i at gone) =
    finished d c (move_other i panicked s.pc refl all)
Step-Inv {s} (finished d c all) (clear i at) = absurd (none_closing i s.pc (ap is_closing at) all)
Step-Inv {s} (finished d c all) (call_on_close i at) =
    absurd (none_closing i s.pc (ap is_closing at) all)

Reach-Inv : {s : Shared} → Reach start s → Inv s
Reach-Inv here = untouched refl refl (λ i. refl)
Reach-Inv (next run step) = Step-Inv (Reach-Inv run) step

-- However many goroutines call `Close` of a connection, in every interleaving `OnClose` is called at most
-- once, and not before the channel is closed.
pub Reach-closes : {s : Shared} → Reach start s → (s.closes ≤ 1) × (s.dying ≡ false → s.closes ≡ 0)
Reach-closes {s} run = elim (Reach-Inv run) [
  | untouched d c all ↦ (omega (arith, c), (λ h. c))
  | closing i d c only ↦ (omega (arith, c), (λ h. c))
  | finished d c all ↦ (omega (arith, c), (λ h. cc))
]

pick : (i j : ℕ) (p : Pc) (pc : ℕ → Pc) → i ≢ j → move j p pc i ≡ pc i
pick i j p pc h = elim (Bool-cases (i == j)) [
  | inl e ↦ absurd (h ((==_iff i j).0 e))
  | inr e ↦ rw e refl
]

set_at : (i : ℕ) (p : Pc) (pc : ℕ → Pc) → move i p pc i ≡ p
set_at i p pc = rw (==_refl i) refl

-- Whenever two goroutines are about to call `Close` of a connection that no one has begun to close, there is
-- an interleaving in which one of them panics: both see `connected` set before either closes the
-- channel.
pub Reach-panicked :
    (i j : ℕ) (s : Shared)
    → i ≢ j
    → s.connected ≡ true
    → s.dying ≡ false
    → s.pc i ≡ ready
    → s.pc j ≡ ready
    → (t : Shared) × Reach s t × (t.pc j ≡ panicked)
Reach-panicked i j s other up opened at_i at_j =
    let p1 = move i tested s.pc in
    let p2 = move j tested p1 in
    let p3 = move i shut p2 in
    (
      record s { dying = true; pc = move j panicked p3 },
      next
          (next
            (next (next here (test_open i at_i up))
              (test_open j (pick j i tested s.pc (λ e. other (sym e)) ∙ at_j) up))
            (close_dying i (pick i j tested p1 other ∙ set_at i tested s.pc) opened))
          (close_again j (pick j i shut p2 (λ e. other (sym e)) ∙ set_at j tested p1) refl),
      set_at j panicked p3,
    )
