-- ===== src/Connection/Life.antt =====
-- connection.go: a connection over any sequence of what its loop does with it, while it is open.
use gev.Base.{
  ℕ, ◌+◌, ◌*◌, ◌≡◌, refl, sym, ap, subst, ◌∙◌, true, false, List, [], ◌∷◌, Option, none, some, inl,
  inr, Bool-cases, if◌then◌else◌, leb,
}
use gev.Deps.{Deps}
use gev.Deps.Laws.{RingLaws, EpollLaws}
use gev.Protocol.{Protocol}
use gev.Connection.{State, Handler, Call, call_close}
use gev.Connection.Close.{handle_close, run_callback, close, perform, perform_all}
use gev.Connection.Close.Once.{run_callback-Keeps, perform-Keeps}
use gev.Connection.Closed.{handle_close_connected}
use gev.Connection.Send.{send_in_loop, run_send, finish_with}
use gev.Connection.Event.{handle_event, second}
use gev.Connection.Event.Closing.{send_in_loop-closed}
use gev.Connection.Event.Watch.{IsWatched, perform_all-watched, send_in_loop-IsWatched}
use gev.Connection.Event.WatchRead.{IsWatched-holds}
use gev.Connection.Event.Watched.{handle_event-IsWatched}
use gev.Connection.Idle.{close_timeout_conn, arm}

-- What reaches a connection: events of the poller, a send that was queued, the close that was queued, and its
-- timer.
pub data Stimulus (D : Deps) : Type 0 where
  on_event : ℕ → Stimulus D
  on_send : D.Data → Option ℕ → Stimulus D
  on_close on_timer : Stimulus D

module _ (D : Deps) (H : Handler D) (P : Protocol D) where
  unfoldable pub react : Stimulus D → State D → State D
  react (on_event events) s = handle_event D H P s.conn.fd events s
  react (on_send value finish) s = run_send D H P value finish s
  react on_close s = handle_close D H s.conn.fd s
  react on_timer s = close_timeout_conn D s

  -- One after the other; a closed connection is left alone, as its loop has no socket for it then.
  unfoldable pub live : List (Stimulus D) → State D → State D
  unfolding react
  live [] s = s
  live (x ∷ xs) s = if s.conn.connected then live xs (react x s) else s

  pub live-open :
      (x : Stimulus D) (xs : List (Stimulus D)) (s : State D)
      → s.conn.connected ≡ true
      → live (x ∷ xs) s ≡ live xs (react x s)
  unfolding live
  live-open x xs s here = ap (λ c. if c then live xs (react x s) else s) here

  pub live-closed :
      (xs : List (Stimulus D)) (s : State D) → s.conn.connected ≡ false → live xs s ≡ s
  unfolding live
  live-closed [] s down = refl
  live-closed (x ∷ xs) s down = ap (λ c. if c then live xs (react x s) else s) down

  pub live-connected :
      (xs : List (Stimulus D)) (s : State D)
      → (live xs s).conn.connected ≡ true
      → s.conn.connected ≡ true
  live-connected xs s up = elim (Bool-cases s.conn.connected) [
    | inl here ↦ here
    | inr down ↦ sym (ap (λ q. q.conn.connected) (live-closed xs s down)) ∙ up
  ]

module _ (D : Deps) (R : RingLaws D) (watched : ℕ → ℕ → D.Os → Option ℕ) (E : EpollLaws D watched)
    (H : Handler D) (P : Protocol D) where
  run_callback-IsWatched :
      (r : D.User × List (Call D)) (s : State D)
      → IsWatched D watched s
      → IsWatched D watched (run_callback D r s)
  unfolding run_callback
  run_callback-IsWatched (user, calls) s h =
      let k = run_callback-Keeps D (user, calls) s in
      IsWatched-holds D R watched E H P s (run_callback D (user, calls) s) k.keep_poll k.keep_fd
        k.keep_out_buffer
        (perform_all-watched D R watched E s.loop.poll.fd s.conn.fd calls
          (record s { user = user }))
        h

  finish_with-IsWatched :
      (f : Option ℕ) (v : D.Data) (s : State D)
      → IsWatched D watched s
      → IsWatched D watched (finish_with D H f v s)
  finish_with-IsWatched none v s h = h
  finish_with-IsWatched (some f) v s h = run_callback-IsWatched (H.on_finish f v s.user) s h

  finish_with-connected :
      (f : Option ℕ) (v : D.Data) (s : State D)
      → (finish_with D H f v s).conn.connected ≡ s.conn.connected
  finish_with-connected none v s = refl
  finish_with-connected (some f) v s =
      let k = run_callback-Keeps D (H.on_finish f v s.user) s in k.keep_connected

  run_send-IsWatched :
      (v : D.Data) (f : Option ℕ) (s : State D)
      → s.conn.connected ≡ true
      → IsWatched D watched s
      → (run_send D H P v f s).conn.connected ≡ true
      → IsWatched D watched (run_send D H P v f s)
  unfolding run_send
  run_send-IsWatched v f s up h still =
      let t = (send_in_loop D H (P.packet s.conn v) s).1 in
      let sends : run_send D H P v f s ≡ finish_with D H f v t =
        ap (λ c. if c then finish_with D H f v t else s) up in
      let up_after : t.conn.connected ≡ true =
        sym (finish_with-connected f v t) ∙ ap (λ q. q.conn.connected) (sym sends) ∙ still in
      subst (λ q. IsWatched D watched q) (sym sends)
        (finish_with-IsWatched f v t (elim (Bool-cases (send_in_loop D H (P.packet s.conn v) s).0) [
          | inl closed ↦ absurd (cc (send_in_loop-closed D H (P.packet s.conn v) s closed))
          | inr open_still ↦
              send_in_loop-IsWatched D R watched E H (P.packet s.conn v) s h open_still
        ]))

  close-IsWatched : (s : State D) → IsWatched D watched s → IsWatched D watched (close D s).1
  unfolding perform_all perform
  close-IsWatched s h =
      let k = perform-Keeps D call_close s in
      IsWatched-holds D R watched E H P s (close D s).1 k.keep_poll k.keep_fd k.keep_out_buffer
        (perform_all-watched D R watched E s.loop.poll.fd s.conn.fd (call_close ∷ []) s) h

  close_timeout_conn-IsWatched :
      (s : State D) → IsWatched D watched s → IsWatched D watched (close_timeout_conn D s)
  unfolding close_timeout_conn arm
  close_timeout_conn-IsWatched s h =
      elim (Bool-cases (leb (s.conn.active_time * second + s.conn.idle_time) (D.now s.os))) [
        | inl over ↦ rw (over, close_timeout_conn) (close-IsWatched s h)
        | inr early ↦ elim (Bool-cases s.conn.connected) [
          | inl up ↦
              rw (early, close_timeout_conn)
                (rw (up, close_timeout_conn) (E.after_func_watched _ _ _ _ _ ∙ h))
          | inr down ↦ rw (early, close_timeout_conn) (rw (down, close_timeout_conn) h)
        ]
      ]

  react-IsWatched :
      (x : Stimulus D) (s : State D)
      → s.conn.connected ≡ true
      → IsWatched D watched s
      → (react D H P x s).conn.connected ≡ true
      → IsWatched D watched (react D H P x s)
  unfolding react
  react-IsWatched (on_event events) s up h still =
      handle_event-IsWatched D R watched E H P events s h still
  react-IsWatched (on_send v f) s up h still = run_send-IsWatched v f s up h still
  react-IsWatched on_close s up h still = absurd (cc (handle_close_connected D H s.conn.fd s))
  react-IsWatched on_timer s up h still = close_timeout_conn-IsWatched s h

  -- Over any sequence of events, queued sends, queued closes and timers, what epoll watches for the
  -- connection follows its write buffer, as long as the connection is open at the end: reading alone
  -- while the buffer is empty, reading and writing while bytes wait in it.
  pub live-IsWatched :
      (xs : List (Stimulus D)) (s : State D)
      → IsWatched D watched s
      → (live D H P xs s).conn.connected ≡ true
      → IsWatched D watched (live D H P xs s)
  unfolding live
  live-IsWatched [] s h up = h
  live-IsWatched (x ∷ xs) s h up =
      let here = live-connected D H P (x ∷ xs) s up in
      let goes = live-open D H P x xs s here in
      let after = ap (λ q. q.conn.connected) (sym goes) ∙ up in
      subst (λ q. IsWatched D watched q) (sym goes)
        (live-IsWatched xs (react D H P x s)
          (react-IsWatched x s here h (live-connected D H P xs (react D H P x s) after)) after)
