-- ===== src/Connection/Idle/Deadline.antt =====
-- connection.go: when the timer of an idle connection closes it.
use gev.Base.{
  ℕ, ◌+◌, ◌-◌, ◌*◌, ◌/◌, ◌≤◌, ◌<◌, ◌≡◌, ◌⊎◌, inl, inr, true, [], ◌∷◌, ◌++◌, arith, leb, leb→le,
  Bool-cases,
}
use gev.Deps.{Deps}
use gev.EventLoop
use gev.Connection.{State, close_task}
use gev.Connection.Close.{close, queue}
use gev.Connection.Event.{second}
use gev.Connection.Idle.{close_timeout_conn, arm}

module _ (D : Deps) where
  close-queued :
      (s : State D)
      → s.conn.connected ≡ true
      → (close D s).1.loop.task_queue_w ≡ s.loop.task_queue_w ++ close_task s.self ∷ []
  unfolding close queue EventLoop.queue_in_loop
  close-queued s up = ground arith

  -- When the timer of an open connection fires, whose last activity was at `last` and was recorded in
  -- whole seconds, one of two things happens. Either the idle time is over, but for less than a second
  -- that the recording lost, and a close of the connection is queued behind the tasks of its loop. Or
  -- the timer is armed again, and only for a time after which, by the record, the idle time is
  -- over, so that it fires no later than `last` and the idle time together.
  pub close_timeout_conn_lem :
      (s : State D) (last : ℕ)
      → s.conn.connected ≡ true
      → s.conn.active_time ≡ last / second
      → ((last + s.conn.idle_time < D.now s.os + second)
          × ((close_timeout_conn D s).loop.task_queue_w
              ≡ s.loop.task_queue_w ++ close_task s.self ∷ []))
        ⊎ ((delay : ℕ) × (close_timeout_conn D s ≡ arm D delay s)
            × (0 < delay)
            × (D.now s.os + delay ≡ s.conn.active_time * second + s.conn.idle_time)
            × (D.now s.os + delay ≤ last + s.conn.idle_time))
  unfolding close_timeout_conn
  close_timeout_conn_lem s last up rec =
      let now = D.now s.os in
      let idle = s.conn.idle_time in
      let active = s.conn.active_time * second in
      elim (Bool-cases (leb (active + idle) now)) [
        | inl over ↦ inl (
          omega (arith, leb→le (active + idle) now over),
          rw (over, close_timeout_conn) (close-queued s up),
        )
        | inr early ↦
            let before : now < active + idle = ground arith in
            inr (
              active + idle - now,
              rw (early, up, close_timeout_conn),
              omega arith,
              omega arith,
              omega arith,
            )
      ]
