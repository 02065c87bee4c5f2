-- ===== src/Server/System/Sound.antt =====
-- server.go with connection.go and eventloop/eventloop.go: the sockets of all loops of a server.
use Prim.Native.String.{String}
use gev.Base.{
  ℕ, ◌+◌, ◌<◌, ◌≡◌, ◌≢◌, refl, sym, ap, ◌∙◌, subst, false, List, Option, some, get_elem?, set,
  get_elem?-set, get_elem?-set_other, ℤ, lookup, inl, inr, ◌⊎◌, arith, Bool-cases, ◌==◌, ==_iff,
}
use gev.Deps.{Deps, Sockaddr}
use gev.EventLoop.Laws.{IsCounted}
use gev.Connection.{Handler}
use gev.Connection.Close.{perform}
use gev.Connection.Close.Once.{perform-Keeps}
use gev.Connection.Idle.{close_timeout_conn}
use gev.Connection.Outcome.{Keeps-Stays}
use gev.Protocol.{Protocol}
use gev.Reactor.{World, focus, on_conn}
use gev.Reactor.Sound.{IsSound, Moved, Stays-Moved}
use gev.Reactor.Reach.{task-Moved, event-Moved, timer-Stays}
use gev.Server.{Loop, Server}
use gev.Server.System.{loop_world, Local, task, event, call, timer, worked}

pub some_inj : {A : Type 0} {a b : A} → some a ≡ some b → a ≡ b
some_inj h = cc

pub apart : (j i : ℕ) → (j == i) ≡ false → j ≢ i
apart j i e h = ground (arith, e, h)

module _ (D : Deps) where
  -- What is sound depends on the loop and on the connections that its sockets lead to.
  IsSound-cong :
      (w w' : World D) (m : List (ℕ × ℕ))
      → w'.loop ≡ w.loop
      → ((fd c : ℕ) → lookup fd m ≡ some c → w'.conns c ≡ w.conns c)
      → IsSound D w m
      → IsSound D w' m
  IsSound-cong w w' m same h k = record {
    counts = subst (λ l. IsCounted l m) (sym same) k.counts;
    owned = λ fd c there.
        let (up, is_fd) = k.owned fd c there in
        (ap (λ x. x.connected) (h fd c there) ∙ up, ap (λ x. x.fd) (h fd c there) ∙ is_fd);
  }

  module _ (home : ℕ → ℕ) where
    -- Loop `i` is sound, and its sockets lead to connections that were given to it, of those made so far.
    pub record IsAtHome (n i : ℕ) (w : World D) : Type 0 where
      pub sockets : List (ℕ × ℕ)
      pub sound : IsSound D w sockets
      pub homed : (fd c : ℕ) → lookup fd sockets ≡ some c → (home c ≡ i) × (c < n)

    -- Loop `i` goes on, and the connections of other loops are left alone.
    pub record Advance (n i : ℕ) (w w' : World D) : Type 0 where
      pub at_home : IsAtHome n i w'
      pub others : (k : ℕ) → home k ≢ i → w'.conns k ≡ w.conns k

    Moved-Advance :
        (n i c : ℕ) (w w' : World D) (h : IsAtHome n i w)
        → home c ≡ i
        → c < n
        → Moved D c h.sockets w w'
        → Advance n i w w'
    Moved-Advance n i c w w' h is_home small k = record {
      at_home = record {
        sockets = k.left;
        sound = k.sound;
        homed = λ fd j there. elim (k.within fd j there) [
          | inl before ↦ h.homed fd j before
          | inr is_c ↦ (ap home is_c ∙ is_home, subst (λ x. x < n) (sym is_c) small)
        ];
      };
      others = λ j other. k.frame j (λ same. other (ap home same ∙ is_home));
    }

    module _ (H : Handler D) (P : Protocol D) {St : Type 0}
        (strategy : St → List ℤ → Option (ℕ × St)) (addr_text : Sockaddr String → String) where
      pub Local-Advance :
          (n i : ℕ) (w w' : World D)
          → IsAtHome n i w
          → Local D H P strategy addr_text home n i w w'
          → Advance n i w w'
      unfolding on_conn
      Local-Advance n i w w' h (task t is_home small ready ran) =
          Moved-Advance n i _ w w' h is_home small
            (task-Moved D H P t w w' h.sockets h.sound ready ran)
      Local-Advance n i w w' h (event fd events ran) =
          elim (event-Moved D H P fd events w w' h.sockets h.sound ran) [
            | inl same ↦
                subst (Advance n i w) same (record { at_home = h; others = λ k other. refl })
            | inr (c, there, k) ↦
                let (is_home, small) = h.homed fd c there in
                Moved-Advance n i c w w' h is_home small k
          ]
      Local-Advance n i w w' h (call c x is_home small) =
          let s = focus D c w in
          Moved-Advance n i c w _ h is_home small (
            Stays-Moved D c (perform D x s) w h.sockets h.sound
              (Keeps-Stays D (perform-Keeps D x s)))
      Local-Advance n i w w' h (timer c is_home small) =
          let s = focus D c w in
          Moved-Advance n i c w _ h is_home small
            (Stays-Moved D c (close_timeout_conn D s) w h.sockets h.sound (timer-Stays D H P s))

      -- Every loop of the server.
      abbrev pub ServerInv : Server D St → Type 0
      ServerInv s =
          (i : ℕ) (l : Loop D)
          → get_elem? s.work_loops i ≡ some l
          → IsAtHome s.next_conn i (loop_world D l s)

      -- A loop that was not at work, where of the connections none of its own has changed.
      pub kept :
          (n n' i : ℕ) (w w' : World D)
          → w'.loop ≡ w.loop
          → (n' ≡ n ⊎ n' ≡ n + 1)
          → ((k : ℕ) → home k ≡ i → k < n → w'.conns k ≡ w.conns k)
          → IsAtHome n i w
          → IsAtHome n' i w'
      kept n n' i w w' same grows others h = record {
        sockets = h.sockets;
        sound =
            IsSound-cong w w' h.sockets same
              (λ fd k there. others k (h.homed fd k there).0 (h.homed fd k there).1) h.sound;
        homed = λ fd k there.
            let (is_home, small) = h.homed fd k there in (is_home, ground (arith, grows, small));
      }

      pub work-Inv :
          (s : Server D St) (i : ℕ) (l : Loop D) (w : World D)
          → ServerInv s
          → get_elem? s.work_loops i ≡ some l
          → Advance s.next_conn i (loop_world D l s) w
          → ServerInv (worked D H P strategy addr_text home i w s)
      work-Inv s i l w h there a j k at_j = elim (Bool-cases (j == i)) [
        | inl e ↦
            let is_i : j ≡ i = (==_iff j i).0 e in
            let is_w : k ≡ w.loop = some_inj (
              sym at_j
              ∙ ap (get_elem? (set s.work_loops i w.loop)) is_i
              ∙ get_elem?-set s.work_loops i w.loop l there) in
            subst (λ x. IsAtHome s.next_conn x (record w { loop = k })) (sym is_i)
              (subst (λ x. IsAtHome s.next_conn i (record w { loop = x })) (sym is_w) a.at_home)
        | inr e ↦
            let other : j ≢ i = apart j i e in
            let before : get_elem? s.work_loops j ≡ some k =
              sym (get_elem?-set_other s.work_loops i j w.loop other) ∙ at_j in
            kept s.next_conn s.next_conn j (loop_world D k s) (record w { loop = k }) refl
              (inl refl) (λ c is_home small. a.others c (λ q. other (sym is_home ∙ q)))
              (h j k before)
      ]
