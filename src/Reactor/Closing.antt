-- ===== src/Reactor/Closing.antt =====
-- eventloop/eventloop.go and connection.go: what `Stop` does to the connections of a loop.
use gev.Base.{
  ℕ, ◌≡◌, refl, sym, ap, ◌∙◌, Bool, true, false, List, [], ◌∷◌, ◌++◌, append_assoc, append-nil,
  arith, inl, inr, Bool-cases, ==_iff, ◌==◌, if◌then◌else◌,
}
use gev.Deps.{Deps}
use gev.EventLoop
use gev.EventLoop.{EventLoop}
use gev.Connection.{Connection, State, Task, close_task}
use gev.Connection.Close.{close}
use gev.Reactor.{World, focus, on_conn, close_sockets}

module _ (D : Deps) where
  -- The tasks that `Close` queues for the sockets whose connection is open.
  abbrev pub closing : (ℕ → Connection D) → List (ℕ × ℕ) → List (Task D)
  closing conns [] = []
  closing conns ((fd, c) ∷ m) =
      let rest = closing conns m in if (conns c).connected then close_task c ∷ rest else rest

  -- A world in which nothing but the loop and the kernel has changed, and of the loop neither the poller
  -- nor the sockets.
  pub record Untouched (w w' : World D) : Type 0 where
    pub same_conns : (c : ℕ) → w'.conns c ≡ w.conns c
    pub same_user : w'.user ≡ w.user
    pub same_poll : w'.loop.poll ≡ w.loop.poll

  closing-cong :
      (f g : ℕ → Connection D) (m : List (ℕ × ℕ))
      → ((c : ℕ) → f c ≡ g c)
      → closing f m ≡ closing g m
  closing-cong f g [] h = refl
  closing-cong f g ((fd, c) ∷ m) h = rw (h c, closing-cong f g m h) refl

  close-conn : (s : State D) → (close D s).1.conn ≡ s.conn
  unfolding close EventLoop.queue_in_loop
  close-conn s = ground arith

  same_at : (c k : ℕ) (w : World D) → (on_conn D c (λ s. (close D s).1) w).conns k ≡ w.conns k
  unfolding on_conn
  same_at c k w = elim (Bool-cases (k == c)) [
    | inl e ↦ rw e (close-conn (focus D c w) ∙ ap w.conns (sym ((==_iff k c).0 e)))
    | inr e ↦ rw e refl
  ]

  close-Untouched : (c : ℕ) (w : World D) → Untouched w (on_conn D c (λ s. (close D s).1) w)
  unfolding on_conn close EventLoop.queue_in_loop
  close-Untouched c w = record {
    same_conns = λ k. same_at c k w;
    same_user = ground arith;
    same_poll = ground arith;
  }

  close_queue :
      (c : ℕ) (w : World D)
      → (on_conn D c (λ s. (close D s).1) w).loop.task_queue_w
        ≡ w.loop.task_queue_w ++ (if (w.conns c).connected then close_task c ∷ [] else [])
  unfolding on_conn close EventLoop.queue_in_loop
  close_queue c w = ground (arith, append-nil w.loop.task_queue_w)

  pub close_sockets_lem :
      (m : List (ℕ × ℕ)) (w : World D)
      → Untouched w (close_sockets D m w)
        × ((close_sockets D m w).loop.task_queue_w ≡ w.loop.task_queue_w ++ closing w.conns m)
  unfolding close_sockets
  close_sockets_lem [] w = (
    record { same_conns = λ c. refl; same_user = refl; same_poll = refl },
    sym (append-nil w.loop.task_queue_w),
  )
  close_sockets_lem ((fd, c) ∷ m) w =
      let w1 = on_conn D c (λ s. (close D s).1) w in
      let k = close-Untouched c w in
      let (r, queued) = close_sockets_lem m w1 in
      (
        record {
          same_conns = λ j. r.same_conns j ∙ k.same_conns j;
          same_user = r.same_user ∙ k.same_user;
          same_poll = r.same_poll ∙ k.same_poll;
        },
        queued
            ∙ ap (λ q. q ++ closing w1.conns m) (close_queue c w)
            ∙ ap
                (λ q.
                  (w.loop.task_queue_w ++ (if (w.conns c).connected then close_task c ∷ [] else []))
                  ++ q)
                (closing-cong w1.conns w.conns m k.same_conns)
            ∙ split (w.conns c).connected w.loop.task_queue_w (close_task c) (closing w.conns m),
      )
    where
      split :
          (b : Bool) (q : List (Task D)) (x : Task D) (rest : List (Task D))
          → (q ++ (if b then x ∷ [] else [])) ++ rest ≡ q ++ (if b then x ∷ rest else rest)
      split true q x rest = append_assoc q (x ∷ []) rest
      split false q x rest = append_assoc q [] rest
