-- ===== src/Server/Creation.antt =====
-- server.go: the worker loops of a new server.
use gev.Base.{
  ℕ, zero, suc, ◌+◌, ◌≡◌, refl, ap, List, [], ◌∷◌, ◌++◌, arith, length, length-append, ℤ, subst,
}
use gev.Deps.{Deps, Result, ok, err}
use gev.EventLoop
use gev.EventLoop.Laws.{IsCounted, new-IsCounted}
use gev.Connection.{Task}
use gev.Server.{Loop, create_loops, new_work_loops, loop_count}

module _ (D : Deps) where
  -- Every loop has no socket and a count of 0.
  abbrev pub AllFresh : List (Loop D) → Type 0
  AllFresh [] = Unit {0}
  AllFresh (l ∷ ls) = IsCounted l [] × AllFresh ls

  AllFresh-append :
      (ls : List (Loop D)) (l : Loop D) → AllFresh ls → IsCounted l [] → AllFresh (ls ++ l ∷ [])
  AllFresh-append [] l all h = (h, tt)
  AllFresh-append (k ∷ ls) l (a, all) h = (a, AllFresh-append ls l all h)

  create_loops_lem :
      (n : ℕ) (made ls : List (Loop D)) (os : D.Os)
      → AllFresh made
      → (create_loops D n made os).0 ≡ ok ls
      → (length ls ≡ length made + n) × AllFresh ls
  unfolding create_loops
  create_loops_lem zero made ls os all h =
      let same : made ≡ ls = cc in (omega (arith, ap length same), subst AllFresh same all)
  create_loops_lem (suc n) made ls os all h =
      let created = EventLoop.new D {S = ℕ} {T = Task D} os in
      step created.0 refl (λ l fresh rest.
        create_loops_lem n (made ++ l ∷ []) ls created.1 (AllFresh-append made l all fresh) rest)
    where
      step :
          (r : Result (Loop D))
          → (EventLoop.new D {S = ℕ} {T = Task D} os).0 ≡ r
          → ((l : Loop D)
              → IsCounted l []
              → (create_loops D n (made ++ l ∷ []) (EventLoop.new D {S = ℕ} {T = Task D} os).1).0
                ≡ ok ls
              → (length ls ≡ length (made ++ l ∷ []) + n) × AllFresh ls)
          → (length ls ≡ length made + suc n) × AllFresh ls
      step (err e) q rest = absurd (refused e q)
        where
          refused : (e : _) → (EventLoop.new D {S = ℕ} {T = Task D} os).0 ≡ err e → ⊥
          refused e q = ground (arith, q, h)
      step (ok l) q rest =
          let (size, fresh) = rest l (new-IsCounted D l os q) (ground (arith, q, h)) in
          (omega (arith, length-append made (l ∷ []), size), fresh)

  -- A server that is made has as many loops as its options ask for, or as there are CPUs where they ask
  -- for none or a negative number, each without a socket and with a count of 0.
  pub new_work_loops_lem :
      (num_loops : ℤ) (num_cpu : ℕ) (ls : List (Loop D)) (os : D.Os)
      → (new_work_loops D num_loops num_cpu os).0 ≡ ok ls
      → (length ls ≡ loop_count num_loops num_cpu) × AllFresh ls
  unfolding new_work_loops
  new_work_loops_lem num_loops num_cpu ls os h =
      let (size, fresh) = create_loops_lem (loop_count num_loops num_cpu) [] ls os tt h in
      (omega (arith, size), fresh)

  -- The number of loops alone.
  pub length-new_work_loops :
      (num_loops : ℤ) (num_cpu : ℕ) (ls : List (Loop D)) (os : D.Os)
      → (new_work_loops D num_loops num_cpu os).0 ≡ ok ls
      → length ls ≡ loop_count num_loops num_cpu
  length-new_work_loops num_loops num_cpu ls os h = (new_work_loops_lem num_loops num_cpu ls os h).0
