-- ===== src/Reactor/Stopped.antt =====
-- eventloop/eventloop.go with poller/epoll.go and connection.go: `Stop` of a loop, whose wake-up comes after
-- all of it but its wait, as the loop goes on from there.
use mathlib.Core.Option
use gev.Base.{
  ℕ, ◌≡◌, refl, ap, ◌∙◌, true, false, not, ◌&&◌, ◌||◌, List, [], ◌∷◌, ◌++◌, none, some, arith,
  subst, ==_refl, ◌==◌, if◌then◌else◌,
}
use gev.Deps.{Deps}
use gev.EventLoop
use gev.EventLoop.{EventLoop}
use gev.Poller.Epoll
use gev.Poller.Epoll.{PollVars, ready, poll_round, r_events}
use gev.Poller.Epoll.Dispatch.{round_lem}
use gev.Protocol.{Protocol}
use gev.Connection.{Handler, stop_task}
use gev.Reactor.{
  request_stop, run_round, on_event, read_wake, is_running, World, handle_socket, run_task,
  loop_event, stop_sockets, registered,
}
use gev.Reactor.Closing.{closing, Untouched, close_sockets_lem}

module _ (D : Deps) where
  module _ (H : Handler D) (P : Protocol D) where
    -- The wake-up of a loop in whose queue stands the task of `Stop` alone.
    pub stopping :
        (m : List (ℕ × ℕ)) (w : World D)
        → w.loop.sockets ≡ some m
        → w.loop.task_queue_w ≡ stop_task ∷ []
        → w.loop.task_queue_r ≡ []
        → (w' : World D) × (loop_event D H P none 0 w ≡ some w')
          × (w'.loop.sockets ≡ none)
          × (w'.loop.task_queue_w ≡ closing D w.conns m)
          × (w'.loop.task_queue_r ≡ [])
          × Untouched D w w'
    unfolding loop_event EventLoop.handler_event run_task stop_sockets
    stopping m w live queue idle =
        let l = w.loop in
        let w1 : World D = record w {
          loop = record l {
            need_wake = true;
            task_queue_w = l.task_queue_r;
            task_queue_r = l.task_queue_w;
          };
        } in
        let w2 = stop_sockets D w1 in
        let l2 = w2.loop in
        let (same, queued) = close_sockets_lem D (registered D w1.loop.sockets) w1 in
        let open_now = ap (λ s. closing D w.conns (registered D s)) live in
        (
          record w2 { loop = record l2 { task_queue_r = [] } },
          ap
              (λ q.
                Option.map (λ w3. clear w3)
                  (EventLoop.run_all (λ w. w.loop) (λ k w. record w { loop = k })
                    (handle_socket D H P) (run_task D H P) q w1))
              queue,
          refl,
          queued ∙ ap (λ q. q ++ closing D w.conns (registered D w.loop.sockets)) idle ∙ open_now,
          refl,
          record {
            same_conns = same.same_conns;
            same_user = same.same_user;
            same_poll = same.same_poll;
          },
        )
      where
        clear : World D → World D
        clear w = let l = w.loop in record w { loop = record l { task_queue_r = [] } }

    -- A round in which there is a wake-up alone, after which the poller is stopped.
    wake_round :
        (raw : ℕ) (v : PollVars) (w w' : World D)
        → loop_event D H P none 0 (record w { os = Epoll.wake_handler_read D w.loop.poll w.os })
          ≡ some w'
        → w'.loop.poll.running ≡ false
        → let r = run_round D H P (ready ((w.loop.poll.event_fd, raw) ∷ [])) v w in
          (r.0 ≡ true) × (r.2 ≡ some w')
    unfolding run_round
    wake_round raw v w w' ran stopped =
        let fd = w.loop.poll.event_fd in
        let (after, done, clear) =
          round_lem fd (on_event D H P) (read_wake D) (is_running D) (fd, raw) [] v (some w) in
        let woken : (v.wake || (fd == fd || false)) ≡ true = ground (arith, ==_refl fd) in
        let by_socket = on_event D H P (some fd) (r_events raw) (some w) in
        let handled = if fd == fd then read_wake D (some w) else by_socket in
        let left : (run_round D H P (ready ((fd, raw) ∷ [])) v w).2 ≡ some w' =
          after
          ∙ ap (λ b. if b then on_event D H P none 0 handled else handled) woken
          ∙ ap (λ b. on_event D H P none 0 (if b then read_wake D (some w) else by_socket))
              (==_refl fd)
          ∙ ran in
        (
          done
              ∙ ap (λ b. b && not (is_running D (run_round D H P (ready ((fd, raw) ∷ [])) v w).2))
                  woken
              ∙ ap (λ o. not (is_running D o)) left
              ∙ ap not stopped,
          left,
        )

    request_stop_lem :
        (w : World D)
        → w.loop.poll.running ≡ true
        → let w1 = (request_stop D w).1 in
          (w1.loop.sockets ≡ w.loop.sockets)
          × (w1.loop.task_queue_w ≡ w.loop.task_queue_w ++ stop_task ∷ [])
          × (w1.loop.task_queue_r ≡ w.loop.task_queue_r)
          × (w1.loop.poll.running ≡ false)
          × (w1.loop.poll.event_fd ≡ w.loop.poll.event_fd)
    unfolding request_stop EventLoop.stop_request EventLoop.queue_in_loop Epoll.close_request
    request_stop_lem w up = ground arith

    -- Where a loop runs with both of its queues empty, and `Stop` gets as far as its wait before the loop reads
    -- the wake-up, a round whose batch holds that wake-up alone is the last: `Poll` returns with every
    -- connection as it was, so open ones are still open, with the user's state as it was, since `OnClose`
    -- was not called, and with the tasks that were to close them still queued.
    pub request_stop-run_round :
        (raw : ℕ) (v : PollVars) (m : List (ℕ × ℕ)) (w : World D)
        → w.loop.sockets ≡ some m
        → w.loop.task_queue_w ≡ []
        → w.loop.task_queue_r ≡ []
        → w.loop.poll.running ≡ true
        → let w1 = (request_stop D w).1 in
          let r = run_round D H P (ready ((w.loop.poll.event_fd, raw) ∷ [])) v w1 in
          (r.0 ≡ true)
          × ((w' : World D) × (r.2 ≡ some w')
              × ((c : ℕ) → w'.conns c ≡ w.conns c)
              × (w'.user ≡ w.user)
              × (w'.loop.task_queue_w ≡ closing D w.conns m))
    unfolding run_round request_stop
    request_stop-run_round raw v m w live queue idle up =
        let w1 = (request_stop D w).1 in
        let (sockets, queued, reading, stopped, is_fd) = request_stop_lem w up in
        let w2 : World D = record w1 { os = Epoll.wake_handler_read D w1.loop.poll w1.os } in
        let (w', ran, gone, left, read, same) =
          stopping m w2 (sockets ∙ live) (queued ∙ ap (λ q. q ++ stop_task ∷ []) queue)
            (reading ∙ idle) in
        let (ended, after) =
          subst
            (λ fd.
              let r = run_round D H P (ready ((fd, raw) ∷ [])) v w1 in
              (r.0 ≡ true) × (r.2 ≡ some w'))
            is_fd (wake_round raw v w1 w' ran (ap (λ p. p.running) same.same_poll ∙ stopped)) in
        (ended, (w', after, same.same_conns, same.same_user, left))
