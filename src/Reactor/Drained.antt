-- ===== src/Reactor/Drained.antt =====
-- eventloop/eventloop.go with connection.go: `Stop` of a loop that goes on after it, and so comes to the tasks
-- which close its connections.
use mathlib.Core.Option
use gev.Base.{
  ℕ, ◌≡◌, refl, ap, ◌∙◌, Bool, true, false, List, [], ◌∷◌, none, some, arith, inl, inr, Bool-cases,
  map, has, lookup, ◌==◌, if◌then◌else◌,
}
use gev.Deps.{Deps}
use gev.EventLoop
use gev.EventLoop.{EventLoop}
use gev.Protocol.{Protocol}
use gev.Connection.{Connection, Handler, close_task, stop_task}
use gev.Connection.Close.{handle_close}
use gev.Connection.Closed.{handle_close_connected}
use gev.Reactor.{World, focus, on_conn, handle_socket, run_task, loop_event}
use gev.Reactor.Closing.{closing}
use gev.Reactor.Stopped.{stopping}

module _ (D : Deps) where
  -- The connections of the sockets that are open.
  abbrev open_of : (ℕ → Connection D) → List (ℕ × ℕ) → List ℕ
  open_of conns [] = []
  open_of conns ((fd, c) ∷ m) =
      let rest = open_of conns m in if (conns c).connected then c ∷ rest else rest

  closing-map :
      (conns : ℕ → Connection D) (m : List (ℕ × ℕ))
      → closing D conns m ≡ map close_task (open_of conns m)
  closing-map conns [] = refl
  closing-map conns ((fd, c) ∷ m) = elim (Bool-cases (conns c).connected) [
    | inl up ↦ rw up (ap (λ r. close_task c ∷ r) (closing-map conns m))
    | inr down ↦ rw down (closing-map conns m)
  ]

  closed_either :
      (c k : ℕ) (rest up : Bool)
      → (if rest then false else (if k == c then false else up))
        ≡ (if (if c == k then true else rest) then false else up)
  closed_either c k rest up = ground arith

  has-open_of :
      (conns : ℕ → Connection D) (m : List (ℕ × ℕ)) (fd c : ℕ)
      → lookup fd m ≡ some c
      → (conns c).connected ≡ true
      → has c (open_of conns m) ≡ true
  unfolding lookup has
  has-open_of conns [] fd c there up = cc
  has-open_of conns ((j, k) ∷ m) fd c there up =
      let rec : lookup fd m ≡ some c → has c (open_of conns m) ≡ true =
        λ h. has-open_of conns m fd c h up in
      elim (Bool-cases (k == c)) [
        | inl e ↦
            let k_is_c : k ≡ c = grind arith in
            rw (ap (λ x. (conns x).connected) k_is_c ∙ up)
              (ap (λ b. if b then true else has c (open_of conns m)) e)
        | inr e ↦
            let other : lookup fd m ≡ some c = ground arith in
            elim (Bool-cases (conns k).connected) [
              | inl a ↦ rw a (ap (λ b. if b then true else has c (open_of conns m)) e ∙ rec other)
              | inr a ↦ rw a (rec other)
            ]
      ]

  has-open_of-none :
      (conns : ℕ → Connection D) (m : List (ℕ × ℕ)) (c : ℕ)
      → has c (map (λ e. e.1) m) ≡ false
      → has c (open_of conns m) ≡ false
  unfolding has
  has-open_of-none conns [] c away = refl
  has-open_of-none conns ((j, k) ∷ m) c away =
      let other : (k == c) ≡ false = ground arith in
      let left : has c (map (λ e. e.1) m) ≡ false = ground arith in
      let rec = has-open_of-none conns m c left in
      elim (Bool-cases (conns k).connected) [
        | inl a ↦ rw a (ap (λ b. if b then true else has c (open_of conns m)) other ∙ rec)
        | inr a ↦ rw a rec
      ]

  module _ (H : Handler D) (P : Protocol D) where
    closed_at : (c : ℕ) (w : World D) → World D
    closed_at c w = on_conn D c (λ s. handle_close D H s.conn.fd s) w

    closed_at_connected :
        (c k : ℕ) (w : World D)
        → ((closed_at c w).conns k).connected ≡ (if k == c then false else (w.conns k).connected)
    unfolding closed_at on_conn
    closed_at_connected c k w = elim (Bool-cases (k == c)) [
      | inl e ↦ rw e (handle_close_connected D H (w.conns c).fd (focus D c w))
      | inr e ↦ rw e refl
    ]

    -- The tasks of `Close` run one after the other, and close their connections alone.
    runs_all :
        (cs : List ℕ) (w : World D)
        → (w' : World D) × (EventLoop.run_all
              (λ w. w.loop)
              (λ l w. record w { loop = l })
              (handle_socket D H P)
              (run_task D H P)
              (map close_task cs)
              w
            ≡ some w')
          × ((k : ℕ) → (w'.conns k).connected ≡ (if has k cs then false else (w.conns k).connected))
    unfolding EventLoop.run_all run_task closed_at has
    runs_all [] w = (w, refl, (λ k. refl))
    runs_all (c ∷ cs) w =
        let (w', ran, flags) = runs_all cs (closed_at c w) in
        (
          w',
          ran,
          (λ k.
              flags k
              ∙ ap (λ b. if has k cs then false else b) (closed_at_connected c k w)
              ∙ closed_either c k (has k cs) (w.conns k).connected),
        )

    -- A wake-up of a loop that goes on after `Stop`, in whose queue stand the tasks of `Close` alone.
    drain :
        (conns : ℕ → Connection D) (m : List (ℕ × ℕ)) (w : World D)
        → ((k : ℕ) → w.conns k ≡ conns k)
        → w.loop.task_queue_w ≡ closing D conns m
        → w.loop.task_queue_r ≡ []
        → (w' : World D) × (loop_event D H P none 0 w ≡ some w')
          × ((k : ℕ)
              → (w'.conns k).connected
                ≡ (if has k (open_of conns m) then false else (conns k).connected))
    unfolding loop_event EventLoop.handler_event
    drain conns m w same queue idle =
        let l = w.loop in
        let w1 : World D = record w {
          loop = record l {
            need_wake = true;
            task_queue_w = l.task_queue_r;
            task_queue_r = l.task_queue_w;
          };
        } in
        let (w2, ran, flags) = runs_all (open_of conns m) w1 in
        let l2 = w2.loop in
        (
          record w2 { loop = record l2 { task_queue_r = [] } },
          ap
                (λ q.
                  Option.map (λ w3. clear w3)
                    (EventLoop.run_all (λ w. w.loop) (λ k w. record w { loop = k })
                      (handle_socket D H P) (run_task D H P) q w1))
                (queue ∙ closing-map conns m)
              ∙ ap (λ o. Option.map (λ w3. clear w3) o) ran,
          (λ k.
              flags k ∙ ap (λ x. if has k (open_of conns m) then false else x.connected) (same k)),
        )
      where
        clear : World D → World D
        clear w = let l = w.loop in record w { loop = record l { task_queue_r = [] } }

    -- Where a wake-up finds the function of `Stop` alone in the queue of a loop, and the loop goes on to the
    -- next wake-up, that runs what the function queued, after which every connection that was registered is
    -- closed, and no other one has changed from open to closed or back.
    pub stop_task-loop_event :
        (m : List (ℕ × ℕ)) (w : World D)
        → w.loop.sockets ≡ some m
        → w.loop.task_queue_w ≡ stop_task ∷ []
        → w.loop.task_queue_r ≡ []
        → (w1 w2 : World D) × (loop_event D H P none 0 w ≡ some w1)
          × (loop_event D H P none 0 w1 ≡ some w2)
          × ((fd c : ℕ) → lookup fd m ≡ some c → (w2.conns c).connected ≡ false)
          × ((c : ℕ)
              → has c (map (λ e. e.1) m) ≡ false
              → (w2.conns c).connected ≡ (w.conns c).connected)
    stop_task-loop_event m w live queue idle =
        let (w1, woken, gone, queued, read, same) = stopping D H P m w live queue idle in
        let (w2, drained, flags) = drain w.conns m w1 same.same_conns queued read in
        (
          w1,
          w2,
          woken,
          drained,
          (λ fd c there.
              flags c ∙ closed_of c (w.conns c).connected (has-open_of w.conns m fd c there)),
          (λ c away.
              flags c
              ∙ ap (λ b. if b then false else (w.conns c).connected)
                  (has-open_of-none w.conns m c away)),
        )
      where
        closed_of :
            (c : ℕ) (up : Bool)
            → (up ≡ true → has c (open_of w.conns m) ≡ true)
            → (if has c (open_of w.conns m) then false else up) ≡ false
        closed_of c true h = ap (λ b. if b then false else true) (h refl)
        closed_of c false h = ground arith
