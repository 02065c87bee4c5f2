-- ===== src/Connection/Outcome.antt =====
-- connection.go: the two ways in which a method of an open connection can end, as its loop sees them;
-- here for `handleClose` and what writes, in a child for what reads and for `HandleEvent`.
pub mod Event
use gev.Base.{
  ℕ, ◌≡◌, refl, sym, ap, ◌∙◌, Bool, true, false, not, ◌&&◌, ◌||◌, arith, inl, inr, Bool-cases,
  Option, Option-cases, none, some, is_nil, is_some, length, ◌==◌, decr, subst, if◌then◌else◌,
}
use gev.Deps.{Deps, Bytes, Errno, is_eagain}
use gev.EventLoop
use gev.EventLoop.{default_packet_size, delete_socket}
use gev.Poller.{event_err, event_read, event_write, has}
use gev.Protocol.{Protocol}
use gev.Connection.{State, Handler}
use gev.Connection.Close.{handle_close, run_callback}
use gev.Connection.Close.Once.{Keeps, handle_close_lem, run_callback-Keeps}
use gev.Connection.Read.{
  fresh, pending, deliver, keep_rest, handle_read, read_failed, send_answers, is_again,
  handler_protocol,
}
use gev.Connection.Read.Frame.{Holds, handler_protocol-Holds}
use gev.Connection.Send.{
  send_in_loop, is_fatal, keep_unsent, write_out_buffer, watch_writable, run_send, finish_with,
}
use gev.Connection.Event.{
  handle_event, handle_write, write_end, write_failed, watch_readable, retrieve_out, touch,
  sync_lengths, finish_write, finish_read, write_side, read_side, dispatch_event,
}

module _ (D : Deps) where
  pub record Stays (s t : State D) : Type 0 where
    pub stay_fd : t.conn.fd ≡ s.conn.fd
    pub stay_connected : t.conn.connected ≡ s.conn.connected
    pub stay_sockets : t.loop.sockets ≡ s.loop.sockets
    pub stay_count : t.loop.conn_count ≡ s.loop.conn_count

  pub record Ends (fd : ℕ) (s t : State D) : Type 0 where
    pub end_connected : t.conn.connected ≡ false
    pub end_sockets : t.loop.sockets ≡ delete_socket fd s.loop.sockets
    pub end_count : t.loop.conn_count ≡ decr s.loop.conn_count

  -- The connection stays open and registered, or it is closed and taken out of its loop.
  pub data Outcome (fd : ℕ) (s t : State D) : Type 0 where
    stays : Stays s t → Outcome fd s t
    ends : Ends fd s t → Outcome fd s t

  pub Keeps-Stays : {s t : State D} → Keeps D s t → Stays s t
  Keeps-Stays k = ground arith

  pub Stays-refl : (s : State D) → Stays s s
  Stays-refl s = record {
    stay_fd = refl;
    stay_connected = refl;
    stay_sockets = refl;
    stay_count = refl;
  }

  pub behind : {fd : ℕ} {s t u : State D} → Stays s t → Outcome fd t u → Outcome fd s u
  behind h (stays k) = stays (ground arith)
  behind {fd} h (ends k) = ends (record {
    end_connected = k.end_connected;
    end_sockets = k.end_sockets ∙ ap (delete_socket fd) h.stay_sockets;
    end_count = k.end_count ∙ ap decr h.stay_count;
  })

  pub before : {fd : ℕ} {s t u : State D} → Outcome fd s t → Stays t u → Outcome fd s u
  before (stays k) h = stays (ground arith)
  before (ends k) h = ends (ground arith)

  module _ (H : Handler D) where
    pub handle_close-Outcome :
        (fd : ℕ) (s t : State D)
        → Stays s t
        → s.conn.connected ≡ true
        → Outcome fd s (handle_close D H fd t)
    handle_close-Outcome fd s t h up =
        let (a, b, c) = handle_close_lem D H fd t (h.stay_connected ∙ up) in
        behind h (ends (record { end_connected = a; end_sockets = b; end_count = c }))

    keep_unsent-Stays : (n : ℕ) (b : Bytes) (s : State D) → Stays s (keep_unsent D n b s)
    unfolding keep_unsent
    keep_unsent-Stays n b s = ground arith

    watch_writable-Stays : (s : State D) → Stays s (watch_writable D s)
    unfolding watch_writable
    watch_writable-Stays s = ground arith

    pub send_in_loop-Outcome :
        (b : Bytes) (s : State D)
        → s.conn.connected ≡ true
        → Outcome s.conn.fd s (send_in_loop D H b s).1
    unfolding send_in_loop
    send_in_loop-Outcome b s up =
        let r = D.write s.conn.fd b s.os in
        let s1 : State D = record s { os = r.2 } in
        elim (Bool-cases (D.is_empty s.conn.out_buffer)) [
          | inr full ↦ rw (full, send_in_loop) (stays (wrote s))
          | inl e ↦ elim (Bool-cases (is_fatal r.1)) [
            | inl fatal ↦
                rw (e, send_in_loop)
                  (rw (fatal, send_in_loop)
                    (handle_close-Outcome s.conn.fd s s1 (same s s1 refl refl) up))
            | inr fine ↦
                rw (e, send_in_loop)
                  (rw (fine, send_in_loop)
                    (behind (same s s1 refl refl) (
                      before (stays (keep_unsent-Stays r.0 b s1))
                        (watch_writable-Stays (keep_unsent D r.0 b s1)))))
          ]
        ]
      where
        same : (s t : State D) → t.conn ≡ s.conn → t.loop ≡ s.loop → Stays s t
        same s t h k = ground arith

        wrote : (s : State D) → Stays s (write_out_buffer D b s)
        wrote s = unfold write_out_buffer in ground arith

    write_failed-Outcome :
        (fd : ℕ) (e : Errno) (s : State D)
        → s.conn.connected ≡ true
        → Outcome fd s (write_failed D H fd e s).1
    unfolding write_failed
    write_failed-Outcome fd e s up = elim (Bool-cases (is_eagain e)) [
      | inl again ↦ rw (again, write_failed) (stays (Stays-refl s))
      | inr fatal ↦ rw (fatal, write_failed) (handle_close-Outcome fd s s (Stays-refl s) up)
    ]

    watch_readable-Stays : (fd : ℕ) (s : State D) → Stays s (watch_readable D fd s)
    unfolding watch_readable
    watch_readable-Stays fd s = ground arith

    write_end-Outcome :
        (fd : ℕ) (end : Bytes) (s : State D)
        → s.conn.connected ≡ true
        → Outcome fd s (write_end D H fd end s).1
    unfolding write_end
    write_end-Outcome fd end s up =
        let r = D.write s.conn.fd end s.os in
        let s1 : State D = record s { os = r.2 } in
        let same : Stays s s1 = ground arith in
        elim (Option-cases r.1) [
          | inr (e, failed) ↦ rw (failed, write_end) (behind same (write_failed-Outcome fd e s1 up))
          | inl fine ↦
              rw (fine, write_end)
                (behind same (
                  behind (retrieved r.0 s1)
                    (stays (watch_readable-Stays fd (retrieve_out D r.0 s1)))))
        ]
      where
        retrieved : (n : ℕ) (s : State D) → Stays s (retrieve_out D n s)
        retrieved n s = ground arith

    pub handle_write-Outcome :
        (fd : ℕ) (s : State D) → s.conn.connected ≡ true → Outcome fd s (handle_write D H fd s).1
    unfolding handle_write
    handle_write-Outcome fd s up =
        let (first, end) = D.peek_all s.conn.out_buffer in
        let r = D.write s.conn.fd first s.os in
        let s1 : State D = record s { os = r.2 } in
        let s2 = retrieve_out D r.0 s1 in
        let same : Stays s s1 = ground arith in
        let less : Stays s s2 = ground arith in
        elim (Option-cases r.1) [
          | inr (e, failed) ↦
              rw (failed, handle_write) (behind same (write_failed-Outcome fd e s1 up))
          | inl fine ↦ elim (Bool-cases (r.0 == length first && not (is_nil end))) [
            | inl wraps ↦
                rw (fine, handle_write)
                  (rw (wraps, handle_write) (behind less (write_end-Outcome fd end s2 up)))
            | inr short ↦
                rw (fine, handle_write)
                  (rw (short, handle_write) (behind less (stays (watch_readable-Stays fd s2))))
          ]
        ]
