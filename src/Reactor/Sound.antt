-- ===== src/Reactor/Sound.antt =====
-- connection.go and eventloop/eventloop.go: all connections of one loop, and the sockets that the loop holds
-- for them.
use gev.Base.{
  ℕ, ◌≡◌, refl, sym, ◌∙◌, true, List, ◌∷◌, none, some, inl, inr, ◌⊎◌, ◌≢◌, Bool-cases, ==_iff,
  ==_refl, ◌==◌, lookup, erase,
}
use gev.Deps.{Deps}
use gev.EventLoop.Laws.{IsCounted, removed-IsCounted, add_socket-IsCounted}
use gev.Protocol.{Protocol}
use gev.Connection.{State, Handler}
use gev.Connection.Close.{run_callback}
use gev.Connection.Close.Once.{run_callback-Keeps}
use gev.Connection.Outcome.{Stays, Outcome, stays, ends, Keeps-Stays, Stays-refl}
use gev.Reactor.{World, focus, unfocus, on_conn, open_connection}
use gev.Reactor.Owned.{
  IsOwned, put-IsOwned, put-erase-IsOwned, add-IsOwned, still_there, first_or_later,
}

module _ (D : Deps) where
  -- The sockets are `m`, without a descriptor twice, counted, and each leads to its connection.
  pub record IsSound (w : World D) (m : List (ℕ × ℕ)) : Type 0 where
    pub counts : IsCounted w.loop m
    pub owned : IsOwned D w.conns m

  -- A step that leaves a loop sound, as other loops see it: of the connections it changes one alone, and the
  -- sockets that it leaves were there before or lead to this one.
  pub record Moved (c : ℕ) (m : List (ℕ × ℕ)) (w w' : World D) : Type 0 where
    pub left : List (ℕ × ℕ)
    pub sound : IsSound w' left
    pub within : (fd k : ℕ) → lookup fd left ≡ some k → (lookup fd m ≡ some k) ⊎ (k ≡ c)
    pub frame : (k : ℕ) → k ≢ c → w'.conns k ≡ w.conns k

  pub unfocus-frame :
      (c : ℕ) (t : State D) (w : World D) (k : ℕ) → k ≢ c → (unfocus D c t w).conns k ≡ w.conns k
  unfocus-frame c t w k other = elim (Bool-cases (k == c)) [
    | inl e ↦ absurd (other ((==_iff k c).0 e))
    | inr e ↦ rw e refl
  ]

  -- A method that leaves the connection open and registered leaves all as it is.
  pub Stays-IsSound :
      (c : ℕ) (t : State D) (w : World D) (m : List (ℕ × ℕ))
      → IsSound w m
      → Stays D (focus D c w) t
      → IsSound (unfocus D c t w) m
  Stays-IsSound c t w m h k = record {
    counts = record {
      live = k.stay_sockets ∙ h.counts.live;
      unique = h.counts.unique;
      counted = k.stay_count ∙ h.counts.counted;
    };
    owned = put-IsOwned D c t.conn w.conns m k.stay_connected k.stay_fd h.owned;
  }

  pub Stays-Moved :
      (c : ℕ) (t : State D) (w : World D) (m : List (ℕ × ℕ))
      → IsSound w m
      → Stays D (focus D c w) t
      → Moved c m w (unfocus D c t w)
  Stays-Moved c t w m h k = record {
    left = m;
    sound = Stays-IsSound c t w m h k;
    within = λ fd j there. inl there;
    frame = unfocus-frame c t w;
  }

  -- A method of a registered connection keeps the loop sound, also where it closes the connection.
  pub Outcome-Moved :
      (c : ℕ) (t : State D) (w : World D) (m : List (ℕ × ℕ))
      → IsSound w m
      → lookup (w.conns c).fd m ≡ some c
      → Outcome D (w.conns c).fd (focus D c w) t
      → Moved c m w (unfocus D c t w)
  Outcome-Moved c t w m h there (stays k) = Stays-Moved c t w m h k
  Outcome-Moved c t w m h there (ends k) = record {
    left = erase (w.conns c).fd m;
    sound = record {
      counts =
          removed-IsCounted (w.conns c).fd c w.loop t.loop m h.counts there k.end_sockets
            k.end_count;
      owned = put-erase-IsOwned D c t.conn w.conns m h.owned;
    };
    within = λ fd j still. inl (still_there D (w.conns c).fd fd j m still).0;
    frame = unfocus-frame c t w;
  }

  -- Methods of a closed connection change neither its state nor the loop.
  pub closed-Moved :
      (c : ℕ) (w : World D) (m : List (ℕ × ℕ))
      → IsSound w m
      → Moved c m w (unfocus D c (focus D c w) w)
  closed-Moved c w m h = Stays-Moved c (focus D c w) w m h (Stays-refl D (focus D c w))

  module _ (H : Handler D) (P : Protocol D) where
    -- The task of a new connection: `OnConnect`, and a registration that epoll takes or refuses.
    pub open_connection-Moved :
        (c fd : ℕ) (w : World D) (m : List (ℕ × ℕ))
        → IsSound w m
        → (w.conns c).connected ≡ true
        → (w.conns c).fd ≡ fd
        → lookup fd m ≡ none
        → (w' : World D) × (open_connection D H P c fd w ≡ some w') × Moved c m w w'
    unfolding open_connection on_conn
    open_connection-Moved c fd w m h up is_fd new =
        let s = focus D c w in
        let t = run_callback D (H.on_connect s.conn s.user) s in
        let k = Keeps-Stays D (run_callback-Keeps D (H.on_connect s.conn s.user) s) in
        let w1 = unfocus D c t w in
        let h1 = Stays-IsSound c t w m h k in
        let (e, l, os, added, after) = add_socket-IsCounted D fd c w1.loop m w1.os h1.counts new in
        elim after [
          | inl (fine, counted) ↦ (
            record w1 { loop = l; os = os },
            rw (added, open_connection) refl,
            record {
              left = (fd, c) ∷ m;
              sound = record {
                counts = counted;
                owned = added_socket c fd t w m up is_fd k h1.owned;
              };
              within = one_more c fd m;
              frame = unfocus-frame c t w;
            },
          )
          | inr counted ↦ (
            record w1 { loop = l; os = os },
            rw (added, open_connection) refl,
            record {
              left = m;
              sound = record { counts = counted; owned = h1.owned };
              within = λ j n there. inl there;
              frame = unfocus-frame c t w;
            },
          )
        ]
      where
        one_more :
            (c fd : ℕ) (m : List (ℕ × ℕ)) (j k : ℕ)
            → lookup j ((fd, c) ∷ m) ≡ some k
            → (lookup j m ≡ some k) ⊎ (k ≡ c)
        one_more c fd m j k there = elim (first_or_later D c fd j k m there) [
          | inl (same, is_c) ↦ inr (sym is_c)
          | inr later ↦ inl later
        ]

        added_socket :
            (c fd : ℕ) (t : State D) (w : World D) (m : List (ℕ × ℕ))
            → (w.conns c).connected ≡ true
            → (w.conns c).fd ≡ fd
            → Stays D (focus D c w) t
            → IsOwned D (unfocus D c t w).conns m
            → IsOwned D (unfocus D c t w).conns ((fd, c) ∷ m)
        added_socket c fd t w m up is_fd k h =
            add-IsOwned D c fd (unfocus D c t w).conns m (rw (==_refl c) (k.stay_connected ∙ up))
              (rw (==_refl c) (k.stay_fd ∙ is_fd)) h
