-- ===== src/Reactor/Owned.antt =====
-- connection.go and eventloop/eventloop.go: the connections that the sockets of a loop lead to, where one of them
-- or the sockets change.
use gev.Base.{
  ℕ, ◌≡◌, sym, ap, ◌∙◌, true, List, [], ◌∷◌, some, arith, inl, inr, ◌⊎◌, ◌≢◌, Bool-cases, ==_iff,
  ◌==◌, lookup, erase, lookup-erase, if◌then◌else◌,
}
use gev.Deps.{Deps}
use gev.Connection.{Connection}

module _ (D : Deps) where
  -- A socket of the loop leads to an open connection on its descriptor.
  abbrev pub IsOwned : (ℕ → Connection D) → List (ℕ × ℕ) → Type 0
  IsOwned conns m =
      (fd c : ℕ) → lookup fd m ≡ some c → ((conns c).connected ≡ true) × ((conns c).fd ≡ fd)

  abbrev pub put : ℕ → Connection D → (ℕ → Connection D) → ℕ → Connection D
  put c x conns k = if k == c then x else conns k

  pub empty-IsOwned : (conns : ℕ → Connection D) → IsOwned conns []
  unfolding lookup
  empty-IsOwned conns fd c there = cc

  pub put-IsOwned :
      (c : ℕ) (x : Connection D) (conns : ℕ → Connection D) (m : List (ℕ × ℕ))
      → x.connected ≡ (conns c).connected
      → x.fd ≡ (conns c).fd
      → IsOwned conns m
      → IsOwned (put c x conns) m
  put-IsOwned c x conns m up same h fd k there =
      let (a, b) = h fd k there in
      elim (Bool-cases (k == c)) [
        | inl e ↦
            let k_c : k ≡ c = (==_iff k c).0 e in
            rw e (
              up ∙ ap (λ j. (conns j).connected) (sym k_c) ∙ a,
              same ∙ ap (λ j. (conns j).fd) (sym k_c) ∙ b,
            )
        | inr e ↦ rw e (a, b)
      ]

  -- A connection that no socket leads to.
  pub put_new-IsOwned :
      (c : ℕ) (x : Connection D) (conns : ℕ → Connection D) (m : List (ℕ × ℕ))
      → ((fd : ℕ) → lookup fd m ≢ some c)
      → IsOwned conns m
      → IsOwned (put c x conns) m
  put_new-IsOwned c x conns m new h fd k there = elim (Bool-cases (k == c)) [
    | inl e ↦ absurd (new fd (there ∙ ap some ((==_iff k c).0 e)))
    | inr e ↦ rw e (h fd k there)
  ]

  pub still_there :
      (j fd k : ℕ) (m : List (ℕ × ℕ))
      → lookup fd (erase j m) ≡ some k
      → (lookup fd m ≡ some k) × (j ≢ fd)
  still_there j fd k m there = ground (arith, lookup-erase j fd m)

  -- The sockets without that of a connection, which may be closed then.
  pub put-erase-IsOwned :
      (c : ℕ) (x : Connection D) (conns : ℕ → Connection D) (m : List (ℕ × ℕ))
      → IsOwned conns m
      → IsOwned (put c x conns) (erase (conns c).fd m)
  put-erase-IsOwned c x conns m h fd k there =
      let (was, other) = still_there (conns c).fd fd k m there in
      let (up, is_fd) = h fd k was in
      elim (Bool-cases (k == c)) [
        | inl e ↦
            let same : (conns c).fd ≡ fd =
              ap (λ j. (conns j).fd) (sym ((==_iff k c).0 e)) ∙ is_fd in
            absurd (other same)
        | inr e ↦ rw e (up, is_fd)
      ]

  pub first_or_later :
      (c fd j k : ℕ) (m : List (ℕ × ℕ))
      → lookup j ((fd, c) ∷ m) ≡ some k
      → ((fd ≡ j) × (c ≡ k)) ⊎ (lookup j m ≡ some k)
  unfolding lookup
  first_or_later c fd j k m there = ground (arith, there)

  pub add-IsOwned :
      (c fd : ℕ) (conns : ℕ → Connection D) (m : List (ℕ × ℕ))
      → (conns c).connected ≡ true
      → (conns c).fd ≡ fd
      → IsOwned conns m
      → IsOwned conns ((fd, c) ∷ m)
  add-IsOwned c fd conns m up is_fd h j k there = elim (first_or_later c fd j k m there) [
    | inl (same, is_c) ↦ (
      ap (λ i. (conns i).connected) (sym is_c) ∙ up,
      ap (λ i. (conns i).fd) (sym is_c) ∙ is_fd ∙ same,
    )
    | inr later ↦ h j k later
  ]
