-- ===== src/Windows/Service/Accepting/Stopped.antt =====
-- server_std.go: which connections `Stop` closes.
use gev.Base.{
  ℕ, ◌≡◌, refl, ap, ◌⊎◌, inl, inr, true, false, List, ◌∷◌, has, arith, Bool-cases, ◌==◌, ℤ,
}
use gev.Windows.Service.{start, store}
use gev.Windows.Service.Accepting.{
  selecting, accepting, over, taken, finished, System, accept, store_taken, Step, set_running,
  conn_closes, loop_ends, loop_goes_on, accept_fails, accepts, stores, stop_ignored, stop_tests,
  close_dying, clear_running, close_listener, range_begins, visits, visits_late, range_ends,
  new_system, Reach, here, next,
}
use gev.Windows.Service.Accepting.Sound.{
  left_of, Sound, is_taken, Sound-close, Sound-move, Sound-accept, Sound-store, Sound-found,
  Sound-left,
}

abbrev Inv : System → Type 0
Inv s =
    Sound s.open_conn s.next_conn s.loops s.server.connections s.found (left_of s.stopping s.found)

has-tail : (c d : ℕ) (xs : List ℕ) → (d == c) ≡ false → has d (c ∷ xs) ≡ true → has d xs ≡ true
unfolding has
has-tail c d xs other h = ground arith

Step-Inv : {s t : System} → Step s t → Inv s → Inv t
unfolding start accept store_taken store
Step-Inv (set_running p h e) v = rw e v
Step-Inv {s} (conn_closes c e) v =
    rw e (Sound-close c (left_of s.stopping s.found) (λ d other h. h) v)
Step-Inv (loop_ends i p h e) v = rw e (Sound-move i over (ap is_taken p) refl v)
Step-Inv (loop_goes_on i p h e) v = rw e (Sound-move i accepting (ap is_taken p) refl v)
Step-Inv (accept_fails i p e) v = rw e (Sound-move i selecting (ap is_taken p) refl v)
Step-Inv (accepts i p h e) v = rw e (Sound-accept i (ap is_taken p) v)
Step-Inv (stores i c p e) v = rw e (Sound-store i c p v)
Step-Inv {s} (stop_ignored p h e) v = rw e (Sound-left (ap (λ q. left_of q s.found) p) v)
Step-Inv {s} (stop_tests p h e) v = rw e (Sound-left (ap (λ q. left_of q s.found) p) v)
Step-Inv {s} (close_dying w p h e) v = rw (e, h) (Sound-left (ap (λ q. left_of q s.found) p) v)
Step-Inv {s} (clear_running w p h e) v = rw (e, h) (Sound-left (ap (λ q. left_of q s.found) p) v)
Step-Inv {s} (close_listener w p h e) v = rw (e, h) (Sound-left (ap (λ q. left_of q s.found) p) v)
Step-Inv (range_begins left p h e) v = rw e (Sound-found left h v)
Step-Inv {s} (visits c left p e) v = rw e (
    Sound-close c left (λ d other h. has-tail c d left other h)
      (Sound-left (ap (λ q. left_of q s.found) p) v))
Step-Inv {s} (visits_late c left p h e) v =
    rw e (Sound-close c (left_of s.stopping s.found) (λ d other h. h) v)
Step-Inv {s} (range_ends p e) v = rw e (Sound-left (ap (λ q. left_of q s.found) p) v)

Reach-Inv : {n : ℤ} {s : System} → Reach (new_system n) s → Inv s
unfolding has
Reach-Inv here = record {
  owned = λ c h. cc;
  visited = λ c h f. cc;
  stored_below = λ c h. cc;
  taken_below = λ i c h. cc;
  found_below = λ c h. cc;
}
Reach-Inv (next r st) = Step-Inv st (Reach-Inv r)

-- In every interleaving of the accept loops with a call of `Stop`, once that has returned from visiting the
-- connections, a connection that is still open is none of those in the map when it began to visit, and it
-- was stored since then or is still with the loop that accepted it.
pub Reach-finished :
    (n : ℤ) (s : System)
    → Reach (new_system n) s
    → s.stopping ≡ finished
    → (c : ℕ) → s.open_conn c ≡ true
    → (has c s.found ≡ false)
      × ((has c s.server.connections ≡ true) ⊎ ((i : ℕ) × (s.loops i ≡ taken c)))
unfolding has
Reach-finished n s r p c up =
    let v = Reach-Inv r in
    (
      elim (Bool-cases (has c s.found)) [
        | inr none_found ↦ none_found
        | inl was_found ↦
            absurd (ground (arith, v.visited c up was_found, ap (λ q. left_of q s.found) p))
      ],
      v.owned c up,
    )
