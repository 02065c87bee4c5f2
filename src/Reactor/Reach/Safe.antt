-- ===== src/Reactor/Reach/Safe.antt =====
-- connection.go, eventloop/eventloop.go and server.go: the sockets of a loop over every interleaving from its
-- creation until `Stop`.
use gev.Base.{subst, ℕ, ◌≡◌, List, [], some, inl, inr, pos}
use gev.Deps.{Deps}
use gev.Protocol.{Protocol}
use gev.Connection.{Handler}
use gev.Connection.Close.{perform}
use gev.Connection.Close.Once.{perform-Keeps}
use gev.Connection.Idle.{close_timeout_conn}
use gev.Connection.Outcome.{Keeps-Stays}
use gev.Reactor.{World, focus, on_conn}
use gev.Reactor.Owned.{empty-IsOwned}
use gev.Reactor.Sound.{IsSound, Stays-IsSound}
use gev.Reactor.Reach.{
  Step, task, event, call, timer, arrive, hand_over, Reach, start, later, task-Moved, event-Moved,
  arrive-IsSound, hand_over-IsSound, timer-Stays,
}

module _ (D : Deps) where
  module _ (H : Handler D) (P : Protocol D) where
    step-IsSound :
        {w w' : World D} (m : List (ℕ × ℕ))
        → IsSound D w m
        → Step D H P w w'
        → (m' : List (ℕ × ℕ)) × IsSound D w' m'
    unfolding on_conn
    step-IsSound {w} {w'} m h (task t ready ran) =
        let k = task-Moved D H P t w w' m h ready ran in (k.left, k.sound)
    step-IsSound {w} {w'} m h (event fd events ran) =
        elim (event-Moved D H P fd events w w' m h ran) [
          | inl same ↦ (m, subst (λ u. IsSound D u m) same h)
          | inr (c, there, k) ↦ (k.left, k.sound)
        ]
    step-IsSound {w} m h (call c x) =
        let s = focus D c w in
        (m, Stays-IsSound D c (perform D x s) w m h (Keeps-Stays D (perform-Keeps D x s)))
    step-IsSound {w} m h (timer c) =
        let s = focus D c w in
        (m, Stays-IsSound D c (close_timeout_conn D s) w m h (timer-Stays D H P s))
    step-IsSound {w} m h (arrive c fd peer idle new) =
        (m, arrive-IsSound D H P c fd peer idle w m h new)
    step-IsSound {w} m h (hand_over c fd) = (m, hand_over-IsSound D H P c fd w m h)

    -- A loop that starts without sockets and with a count of 0: after any interleaving, without `Stop`, of events,
    -- calls, timers, connections that the listener makes, their tasks that it queues, and tasks that run, where
    -- a task of `Send` or `Close` runs only for a connection that is closed or registered, and the task of a
    -- new connection only while that is open on its descriptor, for which the loop has no socket, its count
    -- of connections is the number of its sockets, no descriptor has two sockets, and each socket leads to
    -- an open connection on its descriptor.
    pub Reach-IsSound :
        {w0 w : World D}
        → w0.loop.sockets ≡ some []
        → w0.loop.conn_count ≡ pos 0
        → Reach D H P w0 w
        → (m : List (ℕ × ℕ)) × IsSound D w m
    Reach-IsSound {w0 = w0} empty zero_count start = (
      [],
      record {
        counts = record { live = empty; unique = tt; counted = zero_count };
        owned = empty-IsOwned D w0.conns;
      },
    )
    Reach-IsSound empty zero_count (later run step) =
        let (m, h) = Reach-IsSound empty zero_count run in step-IsSound m h step
