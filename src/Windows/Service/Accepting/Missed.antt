-- ===== src/Windows/Service/Accepting/Missed.antt =====
-- server_std.go: a connection that `Stop` misses.
use gev.Base.{ℕ, ◌≡◌, refl, true, false, List, [], ◌∷◌, has, arith, ==_refl, ◌==◌}
use gev.Windows.Service.{Server, store}
use gev.Windows.Service.Accepting.{
  taken, uncalled, tested, shut, cleared, closed, finished, visiting, System, with_stop,
  store_taken, close_conn, stores, stop_tests, close_dying, clear_running, close_listener,
  range_begins, visits, range_ends, Reach, here, next,
}

-- A connection that a loop has taken, while `Stop` is somewhere.
record Held (i c : ℕ) (s : System) : Type 0 where
  at_loop : s.loops i ≡ taken c
  is_open : s.open_conn c ≡ true
  unstored : has c s.server.connections ≡ false

not_visited :
    (c d : ℕ) (left : List ℕ) → has c (d ∷ left) ≡ false → ((c == d) ≡ false) × (has c left ≡ false)
unfolding has
not_visited c d left h = (ground arith, ground arith)

-- `Range` visits the others.
visits_all :
    (i c : ℕ) (left : List ℕ) (s0 s : System)
    → Reach s0 s
    → s.stopping ≡ visiting left
    → has c left ≡ false
    → Held i c s
    → (t : System) × Reach s0 t × (t.stopping ≡ visiting []) × Held i c t
visits_all i c [] s0 s r p h v = (s, r, p, v)
visits_all i c (d ∷ left) s0 s r p h v =
    let (other, rest) = not_visited c d left h in
    visits_all i c left s0 (with_stop s.server (visiting left) (close_conn d s))
      (next r (visits d left p refl)) refl rest
      (record { at_loop = v.at_loop; is_open = rw other v.is_open; unstored = v.unstored })

-- Whenever an accept loop has made a connection and not stored it when `Stop` is called on a running server,
-- there is an interleaving in which `Stop` returns, and the connection is then stored and stays open.
pub Reach-missed :
    (i c : ℕ) (s : System)
    → s.loops i ≡ taken c
    → s.open_conn c ≡ true
    → has c s.server.connections ≡ false
    → s.stopping ≡ uncalled
    → s.server.running ≡ true
    → (t : System) × Reach s t
      × (t.stopping ≡ finished)
      × (t.open_conn c ≡ true)
      × (has c t.server.connections ≡ true)
unfolding store_taken store has
Reach-missed i c s at up out p running =
    let v = s.server in
    let v1 : Server = record v { dying = true } in
    let v2 : Server = record v1 { running = false } in
    let v3 : Server = record v2 { listening = false } in
    let s1 = with_stop v tested s in
    let s2 = with_stop v1 shut s1 in
    let s3 = with_stop v2 cleared s2 in
    let s4 = with_stop v3 closed s3 in
    let s5 : System = record s4 { stopping = visiting v.connections; found = v.connections } in
    let r4 : Reach s s4 =
      next
        (next (next (next here (stop_tests p running refl)) (close_dying v1 refl refl refl))
          (clear_running v2 refl refl refl))
        (close_listener v3 refl refl refl) in
    let (t, r, q, held) =
      visits_all i c v.connections s s5 (next r4 (range_begins v.connections refl (λ d. refl) refl))
        refl out (record { at_loop = at; is_open = up; unstored = out }) in
    let t1 = with_stop t.server finished t in
    (
      store_taken i c t1,
      next (next r (range_ends q refl)) (stores i c held.at_loop refl),
      refl,
      held.is_open,
      rw (==_refl c) refl,
    )
