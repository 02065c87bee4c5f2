-- ===== src/Reactor/Reach.antt =====
-- connection.go, eventloop/eventloop.go and server.go: one loop with its connections over every interleaving
-- of what happens to it, from its creation until `Stop`.
pub mod Safe
use Prim.Native.String.{String}
use gev.Base.{
  ℕ, ◌≡◌, ◌≢◌, refl, sym, ap, ◌∙◌, Bool, true, false, List, [], ◌∷◌, Option, none, some, arith, inl,
  inr, ◌⊎◌, Bool-cases, lookup, subst, pos, Option-cases, ◌==◌, if◌then◌else◌,
}
use gev.Deps.{Deps}
use gev.EventLoop
use gev.EventLoop.{EventLoop, find_socket}
use gev.EventLoop.Laws.{IsCounted}
use gev.Protocol.{Protocol}
use gev.Connection.{
  Connection, State, Handler, Call, Task, open_task, close_task, send_task, stop_task,
}
use gev.Connection.Close.{close, handle_close, perform, queue}
use gev.Connection.Close.Once.{perform-Keeps}
use gev.Connection.Send.{run_send}
use gev.Connection.Event.{handle_event}
use gev.Connection.Idle.{new_connection, close_timeout_conn, arm}
use gev.Connection.Closed.{closed_lem, handle_close_idle}
use gev.Connection.Outcome.{Stays, Outcome, Keeps-Stays, Stays-refl, handle_close-Outcome}
use gev.Connection.Outcome.Event.{handle_event-Outcome, run_send-Outcome}
use gev.Server.Accept.{new_connection_lem, queue_lem}
use gev.Reactor.{World, focus, unfocus, on_conn, handle_socket, run_task, loop_event}
use gev.Reactor.Lifecycle.{no_socket}
use gev.Reactor.Owned.{IsOwned, put_new-IsOwned, empty-IsOwned}
use gev.Reactor.Sound.{
  IsSound, Moved, Stays-IsSound, Outcome-Moved, closed-Moved, open_connection-Moved,
}

module _ (D : Deps) where
  -- A connection that the listener made for this loop; its registration is not queued yet.
  abbrev pub arrived : ℕ → ℕ → String → ℕ → World D → World D
  arrived c fd peer idle w =
      let t = new_connection D c fd w.loop peer idle w.user w.os in
      record w { conns = λ k. if k == c then t.conn else w.conns k; os = t.os }

  -- The listener has queued its registration.
  abbrev pub handed_over : ℕ → ℕ → World D → World D
  handed_over c fd w =
      let t = queue D (open_task c fd) (focus D c w) in record w { loop = t.loop; os = t.os }

  -- A connection that was closed, or that its loop has a socket for: its registration has run, and epoll
  -- did not refuse it.
  abbrev pub IsKnown : ℕ → World D → Type 0
  IsKnown c w =
      ((w.conns c).connected ≡ false) ⊎ (find_socket (w.conns c).fd w.loop.sockets ≡ some c)

  -- What is asked of a task that runs. That of a new connection finds it open on a descriptor which the
  -- loop has no socket for; the task of `Stop` is left out.
  abbrev pub IsReady : Task D → World D → Type 0
  IsReady (send_task c value finish) w = IsKnown c w
  IsReady (close_task c) w = IsKnown c w
  IsReady (open_task c fd) w =
      ((w.conns c).connected ≡ true)
      × ((w.conns c).fd ≡ fd)
      × (find_socket fd w.loop.sockets ≡ none)
  IsReady stop_task w = ⊥

  module _ (H : Handler D) (P : Protocol D) where
    -- A task that the loop runs, an event that its poller hands it, a call of any goroutine on a connection,
    -- the timer of a connection, a connection that the listener makes for this loop, or its task that the
    -- listener then queues.
    pub data Step (w : World D) : World D → Type 0 where
      task : (t : Task D) {w' : World D} → IsReady t w → run_task D H P t w ≡ some w' → Step w w'
      event :
          (fd events : ℕ) {w' : World D} → loop_event D H P (some fd) events w ≡ some w' → Step w w'
      call : (c : ℕ) (x : Call D) → Step w (on_conn D c (perform D x) w)
      timer : (c : ℕ) → Step w (on_conn D c (close_timeout_conn D) w)
      arrive :
          (c fd : ℕ) (peer : String) (idle : ℕ)
          → ((j : ℕ) → find_socket j w.loop.sockets ≢ some c)
          → Step w (arrived c fd peer idle w)
      hand_over : (c fd : ℕ) → Step w (handed_over c fd w)

    pub data Reach (w : World D) : World D → Type 0 where
      start : Reach w w
      later : {u v : World D} → Reach w u → Step u v → Reach w v

    pub timer-Stays : (s : State D) → Stays D s (close_timeout_conn D s)
    unfolding close_timeout_conn close EventLoop.queue_in_loop
    timer-Stays s = ground arith

    is_some-inj : {w1 w2 : World D} {r : Option (World D)} → r ≡ some w1 → r ≡ some w2 → w1 ≡ w2
    is_some-inj h k = cc

    known-Moved :
        (c : ℕ) (f : State D → State D) (w : World D) (m : List (ℕ × ℕ))
        → IsSound D w m
        → IsKnown c w
        → ((w.conns c).connected ≡ true → Outcome D (w.conns c).fd (focus D c w) (f (focus D c w)))
        → ((w.conns c).connected ≡ false → f (focus D c w) ≡ focus D c w)
        → Moved D c m w (on_conn D c f w)
    unfolding on_conn
    known-Moved c f w m h known open_lem closed_lem = elim known [
      | inl down ↦
          subst (λ t. Moved D c m w (unfocus D c t w)) (sym (closed_lem down))
            (closed-Moved D c w m h)
      | inr there ↦
          let there_m : lookup (w.conns c).fd m ≡ some c =
            sym (ap (find_socket (w.conns c).fd) h.counts.live) ∙ there in
          let up = (h.owned (w.conns c).fd c there_m).0 in
          Outcome-Moved D c (f (focus D c w)) w m h there_m (open_lem up)
    ]

    -- The connection that a task is for.
    abbrev pub task_conn : Task D → ℕ
    task_conn (send_task c value finish) = c
    task_conn (close_task c) = c
    task_conn (open_task c fd) = c
    task_conn stop_task = 0

    pub task-Moved :
        (t : Task D) (w w' : World D) (m : List (ℕ × ℕ))
        → IsSound D w m
        → IsReady t w
        → run_task D H P t w ≡ some w'
        → Moved D (task_conn t) m w w'
    unfolding run_task
    task-Moved (send_task c v f) w w' m h ready ran =
        let s = focus D c w in
        subst (Moved D c m w) (is_some-inj refl ran) (
          known-Moved c (run_send D H P v f) w m h ready (run_send-Outcome D H P v f s)
            (λ down. (closed_lem D H P 0 v f s down).1))
    task-Moved (close_task c) w w' m h ready ran =
        let s = focus D c w in
        subst (Moved D c m w) (is_some-inj refl ran) (
          known-Moved c (λ s. handle_close D H s.conn.fd s) w m h ready
            (handle_close-Outcome D H s.conn.fd s s (Stays-refl D s))
            (handle_close_idle D H s.conn.fd s))
    task-Moved (open_task c fd) w w' m h (up, is_fd, free) ran =
        let (w1, opened, moved) =
          open_connection-Moved D H P c fd w m h up is_fd
            (sym (ap (find_socket fd) h.counts.live) ∙ free) in
        subst (Moved D c m w) (is_some-inj opened ran) moved
    task-Moved stop_task w w' m h ready ran = absurd ready

    pub socket_event :
        (fd events c : ℕ) (w : World D)
        → find_socket fd w.loop.sockets ≡ some c
        → loop_event D H P (some fd) events w ≡ some (on_conn D c (handle_event D H P fd events) w)
    unfolding loop_event EventLoop.handler_event handle_socket on_conn
    socket_event fd events c w there =
        subst
          (λ o.
            elim o [ none ↦ some w | some k ↦ handle_socket D H P k fd events w ]
            ≡ some (on_conn D c (handle_event D H P fd events) w))
          (sym there) refl

    -- An event for a descriptor without a socket changes nothing.
    pub event-Moved :
        (fd events : ℕ) (w w' : World D) (m : List (ℕ × ℕ))
        → IsSound D w m
        → loop_event D H P (some fd) events w ≡ some w'
        → (w ≡ w') ⊎ ((c : ℕ) × (lookup fd m ≡ some c) × Moved D c m w w')
    unfolding on_conn
    event-Moved fd events w w' m h ran = elim (Option-cases (find_socket fd w.loop.sockets)) [
      | inl free ↦ inl (is_some-inj (no_socket D H P fd events w free) ran)
      | inr (c, there) ↦
          let there_m : lookup fd m ≡ some c = sym (ap (find_socket fd) h.counts.live) ∙ there in
          let (up, is_fd) = h.owned fd c there_m in
          let s = focus D c w in
          let f = handle_event D H P fd events in
          let out : Outcome D s.conn.fd s (f s) =
            subst (λ k. Outcome D s.conn.fd s (handle_event D H P k events s)) is_fd
              (handle_event-Outcome D H P events s up) in
          inr (
            c,
            there_m,
            subst (Moved D c m w) (is_some-inj (socket_event fd events c w there) ran)
                (Outcome-Moved D c (f s) w m h (ap (λ k. lookup k m) is_fd ∙ there_m) out),
          )
    ]

    pub arrive-IsSound :
        (c fd : ℕ) (peer : String) (idle : ℕ) (w : World D) (m : List (ℕ × ℕ))
        → IsSound D w m
        → ((j : ℕ) → find_socket j w.loop.sockets ≢ some c)
        → IsSound D (arrived c fd peer idle w) m
    arrive-IsSound c fd peer idle w m h new = record {
      counts = h.counts;
      owned =
          put_new-IsOwned D c (new_connection D c fd w.loop peer idle w.user w.os).conn w.conns m
            (λ j there. new j (ap (find_socket j) h.counts.live ∙ there)) h.owned;
    }

    pub hand_over-IsSound :
        (c fd : ℕ) (w : World D) (m : List (ℕ × ℕ))
        → IsSound D w m
        → IsSound D (handed_over c fd w) m
    hand_over-IsSound c fd w m h =
        let (queued, sockets, count, same) = queue_lem D (open_task c fd) (focus D c w) in
        record {
          counts = record {
            live = sockets ∙ h.counts.live;
            unique = h.counts.unique;
            counted = count ∙ h.counts.counted;
          };
          owned = h.owned;
        }
