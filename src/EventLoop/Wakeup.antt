-- ===== src/EventLoop/Wakeup.antt =====
-- eventloop/eventloop.go with poller/epoll.go: `QueueInLoop` by any number of goroutines against the
-- loop, one atomic action at a time. A producer appends under the lock, swaps `needWake`, and writes to
-- the eventfd if it won the swap; the loop reads the eventfd, sets `needWake`, swaps the queues under
-- the lock, and runs what it took. A write to the eventfd does not fail, and a read empties it.
use gev.Base.{
  ℕ, suc, ◌+◌, ◌<◌, ◌≡◌, ◌≢◌, refl, sym, ap, ◌∙◌, ◌⊎◌, inl, inr, Bool, true, false, List, [], ◌∷◌,
  ◌++◌, arith, append_order, append-nil, Bool-cases, run_order, swap_order,
}

-- Where the goroutine of the loop stands.
pub data Pc : Type 0 where
  polling woken armed draining : Pc

pub record Shared (T : Type 0) : Type 0 where
  pub queue : List T
  -- What is left of the tasks that the loop took, and what it has run.
  pub taken : List T
  pub done : List T
  -- Every task that was ever appended, in the order of the lock.
  pub log : List T
  pub need_wake : Bool
  -- The counter of the eventfd.
  pub signals : ℕ
  -- The producers between their append and their swap, and those between a swap that they won and
  -- their write.
  pub appended : ℕ
  pub won : ℕ
  pub pc : Pc

abbrev pub start : {T : Type 0} → Shared T
start = record {
  queue = [];
  taken = [];
  done = [];
  log = [];
  need_wake = true;
  signals = 0;
  appended = 0;
  won = 0;
  pc = polling;
}

-- An action from `s` to `t`.
pub data Step {T : Type 0} (s t : Shared T) : Type 0 where
  append :
      (f : T)
      → t ≡ record s { queue = s.queue ++ f ∷ []; log = s.log ++ f ∷ []; appended = suc s.appended }
      → Step s t
  swap_won :
      (n : ℕ)
      → s.appended ≡ suc n
      → s.need_wake ≡ true
      → t ≡ record s { need_wake = false; appended = n; won = suc s.won }
      → Step s t
  swap_lost :
      (n : ℕ) → s.appended ≡ suc n → s.need_wake ≡ false → t ≡ record s { appended = n } → Step s t
  write_eventfd :
      (n : ℕ) → s.won ≡ suc n → t ≡ record s { won = n; signals = suc s.signals } → Step s t
  read_eventfd :
      s.pc ≡ polling → 0 < s.signals → t ≡ record s { signals = 0; pc = woken } → Step s t
  set_need_wake : s.pc ≡ woken → t ≡ record s { need_wake = true; pc = armed } → Step s t
  swap_queues :
      s.pc ≡ armed → t ≡ record s { queue = s.taken; taken = s.queue; pc = draining } → Step s t
  run_task :
      (f : T) (fs : List T)
      → s.pc ≡ draining
      → s.taken ≡ f ∷ fs
      → t ≡ record s { taken = fs; done = s.done ++ f ∷ [] }
      → Step s t
  finish : s.pc ≡ draining → s.taken ≡ [] → t ≡ record s { pc = polling } → Step s t

pub data Reach {T : Type 0} : Shared T → Type 0 where
  here : Reach start
  next : {s t : Shared T} → Reach s → Step s t → Reach t

-- `needWake` is down only while a wake-up is on its way; it is up over a queue with tasks only while a
-- producer is about to swap it, or the loop about to take the queue.
record Inv {T : Type 0} (s : Shared T) : Type 0 where
  down : s.need_wake ≡ false → (0 < s.signals + s.won) ⊎ (s.pc ≡ woken)
  up : s.need_wake ≡ true → (s.queue ≡ []) ⊎ (0 < s.appended) ⊎ (s.pc ≡ armed)
  idle : (s.pc ≡ draining) ⊎ (s.taken ≡ [])
  in_order : s.done ++ (s.taken ++ s.queue) ≡ s.log

start-Inv : {T : Type 0} → Inv {T = T} start
start-Inv = ground arith

module _ {T : Type 0} where
  Step-Inv : {s t : Shared T} → Step s t → Inv s → Inv t
  Step-Inv {s} (append f e) v = rw e (record {
    down = v.down;
    up = λ h. inr (inl (omega arith));
    idle = v.idle;
    in_order = append_order f s.done s.taken s.queue s.log v.in_order;
  })
  Step-Inv (swap_won n a w e) v = ground arith
  Step-Inv (swap_lost n a w e) v = ground arith
  Step-Inv (write_eventfd n a e) v = ground arith
  Step-Inv (read_eventfd p g e) v = ground arith
  Step-Inv (set_need_wake p e) v = ground arith
  Step-Inv {s} (swap_queues p e) v =
      let free : s.taken ≡ [] = ground (arith, v.idle) in
      rw e (record {
        down = λ h. ground (arith, v.down h);
        up = λ h. inl free;
        idle = inl refl;
        in_order = swap_order s.done s.taken s.queue s.log free v.in_order;
      })
  Step-Inv {s} (run_task f fs p h e) v = rw e (record {
    down = v.down;
    up = v.up;
    idle = inl p;
    in_order = run_order f fs s.done s.taken s.queue s.log h v.in_order;
  })
  Step-Inv (finish p h e) v = ground arith

  Reach-Inv : {s : Shared T} → Reach s → Inv s
  Reach-Inv here = start-Inv
  Reach-Inv (next r st) = Step-Inv st (Reach-Inv r)

  -- No wake-up is lost. In every state that any interleaving of producers with the loop reaches, a task
  -- in the queue means that the loop will come to it: the eventfd is signalled, or a producer is on its
  -- way to signal it or to swap `needWake`, or the loop is between reading the eventfd and taking the
  -- queue.
  pub Reach-queue :
      {s : Shared T}
      → Reach s
      → s.queue ≢ []
      → (0 < s.signals + s.won + s.appended) ⊎ (s.pc ≡ woken) ⊎ (s.pc ≡ armed)
  Reach-queue {s} r full =
      let v = Reach-Inv r in
      elim (Bool-cases s.need_wake) [
        | inl e ↦ ground (arith, v.up e, full)
        | inr e ↦ ground (arith, v.down e)
      ]

  -- Tasks are run in the order in which they were appended, each once: in every reachable state, those
  -- that were run, those that the loop has taken and those in the queue are, one behind the other, all
  -- that were ever appended. So when no producer is at work and the loop waits in its poll with nothing
  -- signalled, every task was run.
  pub Reach-order :
      {s : Shared T}
      → Reach s
      → (s.done ++ (s.taken ++ s.queue) ≡ s.log)
        × (s.pc ≡ polling → s.signals + s.won + s.appended ≡ 0 → s.done ≡ s.log)
  Reach-order {s} r = let v = Reach-Inv r in (v.in_order, λ p z. settled s v p z)
    where
      settled :
          (s : Shared T)
          → Inv s
          → s.pc ≡ polling
          → s.signals + s.won + s.appended ≡ 0
          → s.done ≡ s.log
      settled s v p z =
          let free : s.taken ≡ [] = ground (arith, v.idle) in
          let none_left : s.queue ≡ [] = elim (Bool-cases s.need_wake) [
            | inl e ↦ ground (arith, v.up e)
            | inr e ↦ ground (arith, v.down e)
          ] in
          sym (append-nil s.done)
          ∙ ap (λ t. s.done ++ t) (sym none_left)
          ∙ ap (λ t. s.done ++ (t ++ s.queue)) (sym free)
          ∙ v.in_order
