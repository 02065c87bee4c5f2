-- ===== src/Samples/Push/Registry.antt =====
-- example/pushmessage/main.go and example/bufferlength/main.go: whom `RunPush` sends to, and the list over the
-- life of a connection.
use gev.Base.{
  ℕ, ◌≡◌, refl, sym, ap, ◌∙◌, Bool, true, false, not, ◌&&◌, List, [], ◌∷◌, ◌++◌, append_assoc,
  append-nil, Option, none, some, if◌then◌else◌, arith, inl, inr, Bool-cases, ==_iff, ==_refl, ◌==◌,
  erase, lookup,
}
use gev.Context
use gev.Context.{get-set}
use gev.Deps.{Deps}
use gev.EventLoop
use gev.EventLoop.Laws.{erase-absent}
use gev.Connection.{Connection, State, Task, send_task}
use gev.Connection.Close.{send, perform, perform_all}
use gev.Reactor.{World, on_conn, focus}
use gev.Samples.Push.{Clients, on_connect, on_close, run_push, clients_key}

module _ (D : Deps) (skip : Connection D → Bool) (hello : D.Data) where
  -- The sends that are queued: one for each open connection that is not left out, in the order of the list.
  abbrev pub pushing : (ℕ → Connection D) → List (ℕ × ℕ) → List (Task D)
  pushing conns [] = []
  pushing conns ((e, c) ∷ rest) =
      let sends = pushing conns rest in
      if not (skip (conns c)) && (conns c).connected then send_task c hello none ∷ sends else sends

  pushing-cong :
      (f g : ℕ → Connection D) (els : List (ℕ × ℕ))
      → ((c : ℕ) → f c ≡ g c)
      → pushing f els ≡ pushing g els
  pushing-cong f g [] h = refl
  pushing-cong f g ((e, c) ∷ rest) h = rw (h c, pushing-cong f g rest h) refl

  abbrev pushed : ℕ → World D → World D
  pushed c w = if skip (w.conns c) then w else on_conn D c (λ s. (send D hello none s).1) w

  send-conn : (s : State D) → (send D hello none s).1.conn ≡ s.conn
  unfolding send EventLoop.queue_in_loop
  send-conn s = ground arith

  same_at : (c k : ℕ) (w : World D) → (pushed c w).conns k ≡ w.conns k
  unfolding on_conn
  same_at c k w = elim (Bool-cases (skip (w.conns c))) [
    | inl e ↦ rw e refl
    | inr e ↦ elim (Bool-cases (k == c)) [
      | inl q ↦ rw e (rw q (send-conn (focus D c w) ∙ ap w.conns (sym ((==_iff k c).0 q))))
      | inr q ↦ rw e (rw q refl)
    ]
  ]

  pushed_queue :
      (c : ℕ) (w : World D)
      → (pushed c w).loop.task_queue_w
        ≡ w.loop.task_queue_w
          ++ (if not (skip (w.conns c)) && (w.conns c).connected
              then send_task c hello none ∷ []
              else [])
  unfolding on_conn send EventLoop.queue_in_loop
  pushed_queue c w = ground (arith, append-nil w.loop.task_queue_w)

  -- `RunPush` queues one send for each connection of the list that is open and not left out, in the order of
  -- the list and behind what is queued already, and changes no connection.
  pub run_push_lem :
      (els : List (ℕ × ℕ)) (w : World D)
      → let t = run_push D skip hello els w in
        (t.loop.task_queue_w ≡ w.loop.task_queue_w ++ pushing w.conns els)
        × ((c : ℕ) → t.conns c ≡ w.conns c)
  unfolding run_push
  run_push_lem [] w = (sym (append-nil w.loop.task_queue_w), (λ c. refl))
  run_push_lem ((e, c) ∷ rest) w =
      let w1 = pushed c w in
      let (queued, same) = run_push_lem rest w1 in
      (
        queued
            ∙ ap (λ q. q ++ pushing w1.conns rest) (pushed_queue c w)
            ∙ ap
                (λ q.
                  (w.loop.task_queue_w
                    ++ (if not (skip (w.conns c)) && (w.conns c).connected
                        then send_task c hello none ∷ []
                        else []))
                  ++ q)
                (pushing-cong w1.conns w.conns rest (λ k. same_at c k w))
            ∙ split (not (skip (w.conns c)) && (w.conns c).connected) w.loop.task_queue_w
                (send_task c hello none) (pushing w.conns rest),
        (λ k. same k ∙ same_at c k w),
      )
    where
      split :
          (b : Bool) (q : List (Task D)) (x : Task D) (rest : List (Task D))
          → (q ++ (if b then x ∷ [] else [])) ++ rest ≡ q ++ (if b then x ∷ rest else rest)
      split true q x rest = append_assoc q (x ∷ []) rest
      split false q x rest = append_assoc q [] rest

erase-append :
    (k v : ℕ) (pre post : List (ℕ × ℕ))
    → lookup k pre ≡ none
    → lookup k post ≡ none
    → erase k (pre ++ (k, v) ∷ post) ≡ pre ++ post
unfolding erase lookup
erase-append k v [] post h h' = rw (==_refl k) (erase-absent k post h')
erase-append k v ((j, w) ∷ pre) post h h' = ground (arith, erase-append k v pre post)

module _ (D : Deps) (of_element : ℕ → D.Value) (to_element : D.Value → Option ℕ)
    (asserted : (e : ℕ) → to_element (of_element e) ≡ some e) where
  key_kept :
      (c : ℕ) (t : State D) (s : Clients)
      → Context.get clients_key (perform_all D (on_connect D of_element c s).1 t).conn.key_values
        ≡ some (of_element s.next_element)
  unfolding on_connect perform_all perform
  key_kept c t s = get-set clients_key clients_key (of_element s.next_element) t.conn.key_values

  -- `OnClose` takes out of the list exactly the element that `OnConnect` put there for this connection, whatever
  -- other connections have come and gone between, as long as the context keeps the element and no
  -- other element of the list is the same.
  pub on_connect-on_close :
      (c : ℕ) (t : State D) (s s2 : Clients) (pre post : List (ℕ × ℕ)) (d : Connection D)
      → d.key_values ≡ (perform_all D (on_connect D of_element c s).1 t).conn.key_values
      → s2.elements ≡ pre ++ (s.next_element, c) ∷ post
      → lookup s.next_element pre ≡ none
      → lookup s.next_element post ≡ none
      → on_close D to_element d s2 ≡ some (record s2 { elements = pre ++ post })
  unfolding on_close
  on_connect-on_close c t s s2 pre post d kept els before behind =
      rw (ap (Context.get clients_key) kept ∙ key_kept c t s, on_close)
        (rw (asserted s.next_element) (
          ap (λ x. some (record s2 { elements = x }))
            (ap (erase s.next_element) els ∙ erase-append s.next_element c pre post before behind)))
