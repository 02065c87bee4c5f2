-- ===== src/Connection/Event/Lengths.antt =====
-- connection.go: the lengths that `ReadBufferLength` and `WriteBufferLength` give.
use gev.Base.{ℕ, ◌≡◌, refl, Bool, true, false, inl, inr, Bool-cases}
use gev.Deps.{Deps}
use gev.Poller.{event_err, event_read, event_write, has}
use gev.Protocol.{Protocol}
use gev.Connection.{State, Handler}
use gev.Connection.Closed.{handle_close_connected}
use gev.Connection.Read.{handle_read}
use gev.Connection.Event.{
  handle_event, handle_write, dispatch_event, write_side, read_side, touch, sync_lengths,
  finish_write, finish_read,
}
use gev.Connection.Event.Closing.{handle_write-closed, handle_read-closed}

-- The published lengths are those of the rings.
abbrev pub IsPublished : (D : Deps) → State D → Type 0
IsPublished D s =
    (s.conn.in_buffer_len ≡ D.ring_length s.conn.in_buffer)
    × (s.conn.out_buffer_len ≡ D.ring_length s.conn.out_buffer)

module _ (D : Deps) (H : Handler D) (P : Protocol D) where
  finish_write-IsPublished :
      (closed : Bool) (s : State D)
      → (closed ≡ true → s.conn.connected ≡ false)
      → (finish_write D (closed, s)).conn.connected ≡ true
      → IsPublished D (finish_write D (closed, s))
  unfolding sync_lengths
  finish_write-IsPublished true s gone up = cc (gone refl)
  finish_write-IsPublished false s gone up = (refl, refl)

  finish_read-IsPublished :
      (closed : Bool) (s : State D)
      → (closed ≡ true → s.conn.connected ≡ false)
      → (finish_read D (closed, s)).conn.connected ≡ true
      → IsPublished D (finish_read D (closed, s))
  unfolding sync_lengths
  finish_read-IsPublished true s gone up = cc (gone refl)
  finish_read-IsPublished false s gone up = (refl, refl)

  write_side-IsPublished :
      (fd events : ℕ) (s : State D)
      → (write_side D H fd events s).conn.connected ≡ true
      → IsPublished D (write_side D H fd events s)
  unfolding write_side sync_lengths
  write_side-IsPublished fd events s up = elim (Bool-cases (has events event_write)) [
    | inl e ↦
        rw (e, write_side)
          (finish_write-IsPublished (handle_write D H fd s).0 (handle_write D H fd s).1
            (handle_write-closed D H fd s) (rw (e, write_side) at up))
    | inr e ↦ rw (e, write_side) (refl, refl)
  ]

  read_side-IsPublished :
      (fd events : ℕ) (s : State D)
      → (read_side D H P fd events s).conn.connected ≡ true
      → IsPublished D (read_side D H P fd events s)
  unfolding read_side sync_lengths
  read_side-IsPublished fd events s up = elim (Bool-cases (has events event_read)) [
    | inl e ↦
        rw (e, read_side)
          (finish_read-IsPublished (handle_read D H P fd s).0 (handle_read D H P fd s).1
            (handle_read-closed D H P fd s) (rw (e, read_side) at up))
    | inr e ↦ rw (e, read_side) (refl, refl)
  ]

  dispatch_event-IsPublished :
      (fd events : ℕ) (s : State D)
      → (dispatch_event D H P fd events s).conn.connected ≡ true
      → IsPublished D (dispatch_event D H P fd events s)
  unfolding dispatch_event
  dispatch_event-IsPublished fd events s up = elim (Bool-cases (has events event_err)) [
    | inl e ↦ absurd (cc (handle_close_connected D H fd s, rw (e, dispatch_event) at up))
    | inr e ↦ elim (Bool-cases (D.is_empty s.conn.out_buffer)) [
      | inl o ↦
          rw (e, dispatch_event)
            (rw (o, dispatch_event)
              (read_side-IsPublished fd events s
                (rw (o, dispatch_event) at (rw (e, dispatch_event) at up))))
      | inr o ↦
          rw (e, dispatch_event)
            (rw (o, dispatch_event)
              (write_side-IsPublished fd events s
                (rw (o, dispatch_event) at (rw (e, dispatch_event) at up))))
    ]
  ]

  -- After `HandleEvent`, unless it closed the connection, `ReadBufferLength` and `WriteBufferLength` give
  -- the lengths of the two rings, whatever the callbacks called and whatever was published before.
  pub handle_event-IsPublished :
      (fd events : ℕ) (s : State D)
      → (handle_event D H P fd events s).conn.connected ≡ true
      → IsPublished D (handle_event D H P fd events s)
  unfolding handle_event
  handle_event-IsPublished fd events s up = dispatch_event-IsPublished fd events (touch D s) up
