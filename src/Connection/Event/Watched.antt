-- ===== src/Connection/Event/Watched.antt =====
-- connection.go: `HandleEvent`, and what epoll watches.
use gev.Base.{
  ℕ, ◌≡◌, refl, sym, subst, Bool, true, false, not, arith, inl, inr, Bool-cases, ltb, Option,
  if◌then◌else◌,
}
use gev.Deps.{Deps}
use gev.Deps.Laws.{RingLaws, EpollLaws}
use gev.Poller.{event_err, event_read, event_write, has}
use gev.Protocol.{Protocol}
use gev.Connection.{State, Handler}
use gev.Connection.Close.{handle_close}
use gev.Connection.Closed.{handle_close_connected}
use gev.Connection.Read.{handle_read}
use gev.Connection.Event.{
  handle_write, handle_event, touch, finish_read, finish_write, sync_lengths, dispatch_event,
  write_side, read_side,
}
use gev.Connection.Event.Watch.{IsWatched}
use gev.Connection.Event.WatchRead.{handle_read-IsWatched}
use gev.Connection.Event.WatchWrite.{handle_write-IsWatched}
use gev.Connection.Event.Closing.{handle_write-closed, handle_read-closed}

module _ (D : Deps) (R : RingLaws D) (watched : ℕ → ℕ → D.Os → Option ℕ) (E : EpollLaws D watched)
    (H : Handler D) (P : Protocol D) where
  touch-IsWatched : (s : State D) → IsWatched D watched s → IsWatched D watched (touch D s)
  unfolding touch
  touch-IsWatched s h = elim (Bool-cases (ltb 0 s.conn.idle_time)) [
    | inl e ↦ rw (e, touch) h
    | inr e ↦ rw (e, touch) h
  ]

  finish_write-IsWatched :
      (closed : Bool) (s : State D)
      → (closed ≡ false → IsWatched D watched s)
      → (closed ≡ true → s.conn.connected ≡ false)
      → (finish_write D (closed, s)).conn.connected ≡ true
      → IsWatched D watched (finish_write D (closed, s))
  unfolding sync_lengths
  finish_write-IsWatched true s h gone up = cc (gone refl)
  finish_write-IsWatched false s h gone up = elim (Bool-cases (D.is_empty s.conn.out_buffer)) [
    | inr e ↦ rw e (rw e (rw e at (h refl)))
    | inl e ↦ rw e (
        rw (R.is_empty_lem (D.reset s.conn.out_buffer), R.contents-reset s.conn.out_buffer)
          (rw e at (h refl)))
  ]

  finish_read-IsWatched :
      (closed : Bool) (s : State D)
      → (closed ≡ false → IsWatched D watched s)
      → (closed ≡ true → s.conn.connected ≡ false)
      → (finish_read D (closed, s)).conn.connected ≡ true
      → IsWatched D watched (finish_read D (closed, s))
  unfolding sync_lengths
  finish_read-IsWatched true s h gone up = cc (gone refl)
  finish_read-IsWatched false s h gone up = elim (Bool-cases (D.is_empty s.conn.in_buffer)) [
    | inr e ↦ rw e (h refl)
    | inl e ↦ rw e (h refl)
  ]

  down : {A : Type 0} (fd : ℕ) (s : State D) → (handle_close D H fd s).conn.connected ≡ true → A
  down fd s up = cc (handle_close_connected D H fd s)

  write_side-IsWatched :
      (events : ℕ) (s : State D)
      → D.is_empty s.conn.out_buffer ≡ false
      → IsWatched D watched s
      → (write_side D H s.conn.fd events s).conn.connected ≡ true
      → IsWatched D watched (write_side D H s.conn.fd events s)
  unfolding write_side sync_lengths
  write_side-IsWatched events s full h up =
      let w = handle_write D H s.conn.fd s in
      elim (Bool-cases (has events event_write)) [
        | inr no_room ↦ rw (no_room, write_side) h
        | inl room ↦
            rw (room, write_side)
              (finish_write-IsWatched w.0 w.1 (handle_write-IsWatched D R watched E H s full h)
                (handle_write-closed D H s.conn.fd s) (rw (room, write_side) at up))
      ]

  read_side-IsWatched :
      (events : ℕ) (s : State D)
      → IsWatched D watched s
      → (read_side D H P s.conn.fd events s).conn.connected ≡ true
      → IsWatched D watched (read_side D H P s.conn.fd events s)
  unfolding read_side sync_lengths
  read_side-IsWatched events s h up =
      let r = handle_read D H P s.conn.fd s in
      elim (Bool-cases (has events event_read)) [
        | inr nothing ↦ rw (nothing, read_side) h
        | inl some_bytes ↦
            rw (some_bytes, read_side)
              (finish_read-IsWatched r.0 r.1 (handle_read-IsWatched D R watched E H P s.conn.fd s h)
                (handle_read-closed D H P s.conn.fd s) (rw (some_bytes, read_side) at up))
      ]

  dispatch_event-IsWatched :
      (events : ℕ) (s : State D)
      → IsWatched D watched s
      → (dispatch_event D H P s.conn.fd events s).conn.connected ≡ true
      → IsWatched D watched (dispatch_event D H P s.conn.fd events s)
  unfolding dispatch_event
  dispatch_event-IsWatched events s h up = elim (Bool-cases (has events event_err)) [
    | inl failed ↦ down s.conn.fd s (rw (failed, dispatch_event) at up)
    | inr fine ↦
        let up1 = rw (fine, dispatch_event) at up in
        rw (fine, dispatch_event) (side (D.is_empty s.conn.out_buffer) refl up1)
  ]
    where
      next : Bool → State D
      next b =
          if not b then write_side D H s.conn.fd events s else read_side D H P s.conn.fd events s

      side :
          (b : Bool)
          → D.is_empty s.conn.out_buffer ≡ b
          → (next b).conn.connected ≡ true
          → IsWatched D watched (next b)
      side true e up' = read_side-IsWatched events s h up'
      side false e up' = write_side-IsWatched events s e h up'

  handle_event_lem :
      (fd events : ℕ) (s : State D)
      → handle_event D H P fd events s ≡ dispatch_event D H P fd events (touch D s)
  unfolding handle_event
  handle_event_lem fd events s = refl

  touch-fd : (s : State D) → (touch D s).conn.fd ≡ s.conn.fd
  unfolding touch
  touch-fd s = ground arith

  touched-IsWatched :
      (fd events : ℕ) (s : State D)
      → s.conn.fd ≡ fd
      → IsWatched D watched s
      → (dispatch_event D H P fd events s).conn.connected ≡ true
      → IsWatched D watched (dispatch_event D H P fd events s)
  touched-IsWatched fd events s e h =
      subst
        (λ k.
          (dispatch_event D H P k events s).conn.connected ≡ true
          → IsWatched D watched (dispatch_event D H P k events s))
        e (dispatch_event-IsWatched events s h)

  -- Between two events, what epoll watches for an open connection follows its write buffer: reading
  -- alone while the buffer is empty, reading and writing while bytes wait in it. `HandleEvent` keeps
  -- this, for every set of events, every result of the system calls, every protocol and whatever the
  -- callbacks call, unless it closes the connection. So bytes that wait are not forgotten: the next
  -- event for room writes them.
  pub handle_event-IsWatched :
      (events : ℕ) (s : State D)
      → IsWatched D watched s
      → (handle_event D H P s.conn.fd events s).conn.connected ≡ true
      → IsWatched D watched (handle_event D H P s.conn.fd events s)
  handle_event-IsWatched events s h up =
      let e = handle_event_lem s.conn.fd events s in
      subst (IsWatched D watched) (sym e) (
        touched-IsWatched s.conn.fd events (touch D s) (touch-fd s) (touch-IsWatched s h)
          (subst (λ t. t.conn.connected ≡ true) e up))
