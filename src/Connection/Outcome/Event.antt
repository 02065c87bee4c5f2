-- ===== src/Connection/Outcome/Event.antt =====
-- connection.go: how `handleRead`, `HandleEvent` and a queued send end.
use gev.Base.{
  ℕ, ◌≡◌, sym, ap, ◌∙◌, Bool, true, false, ◌||◌, arith, inl, inr, Bool-cases, Option, none, some,
  is_nil, is_some, subst, if◌then◌else◌,
}
use gev.Deps.{Deps, Bytes, Errno}
use gev.EventLoop.{default_packet_size}
use gev.Poller.{event_err, event_read, event_write, has}
use gev.Protocol.{Protocol}
use gev.Connection.{State, Handler}
use gev.Connection.Close.Once.{run_callback-Keeps}
use gev.Connection.Read.{
  fresh, pending, deliver, keep_rest, handle_read, read_failed, send_answers, is_again,
  handler_protocol,
}
use gev.Connection.Read.Frame.{Holds, handler_protocol-Holds}
use gev.Connection.Send.{send_in_loop, run_send, finish_with}
use gev.Connection.Event.{
  handle_event, handle_write, touch, sync_lengths, finish_write, finish_read, write_side, read_side,
  dispatch_event,
}
use gev.Connection.Outcome.{
  Stays, Outcome, stays, Keeps-Stays, Stays-refl, behind, before, handle_close-Outcome,
  send_in_loop-Outcome, handle_write-Outcome,
}

module _ (D : Deps) where
  module _ (H : Handler D) where
    send_answers-Outcome :
        (tmp : Bytes) (s : State D)
        → s.conn.connected ≡ true
        → Outcome D s.conn.fd s (send_answers D H (tmp, s)).1
    unfolding send_answers
    send_answers-Outcome tmp s up = elim (Bool-cases (is_nil tmp)) [
      | inl e ↦ rw (e, send_answers) (stays (Stays-refl D s))
      | inr e ↦ rw (e, send_answers) (send_in_loop-Outcome D H tmp s up)
    ]

    module _ (P : Protocol D) where
      Holds-Stays : {s t : State D} → Holds D s t → Stays D s t
      Holds-Stays h = ground arith

      keep_rest-Stays : (s : State D) → Stays D s (keep_rest D s)
      unfolding keep_rest
      keep_rest-Stays s = ground arith

      deliver-Stays : (b : Bytes) (s : State D) → Stays D s (deliver D H P b s).1
      unfolding deliver
      deliver-Stays b s =
          let c = s.conn in
          let f : State D = record s { conn = record c { buffer = D.with_data b c.buffer } } in
          let p : State D = record s {
            conn = record c { in_buffer = D.ring_write b c.in_buffer };
          } in
          let hf = Holds-Stays (handler_protocol-Holds D H P fresh f) in
          let hp = Holds-Stays (handler_protocol-Holds D H P pending p) in
          elim (Bool-cases (D.is_empty s.conn.in_buffer)) [
            | inl e ↦
                rw (e, deliver)
                  (joined (given_f s)
                    (joined hf (keep_rest-Stays (handler_protocol D H P fresh f).1)))
            | inr e ↦ rw (e, deliver) (joined (given_p s) hp)
          ]
        where
          joined : {s t u : State D} → Stays D s t → Stays D t u → Stays D s u
          joined h k = ground arith

          given_f :
              (s : State D)
              → Stays D s
                  (record s { conn = record s.conn { buffer = D.with_data b s.conn.buffer } })
          given_f s = ground arith

          given_p :
              (s : State D)
              → Stays D s (record s {
                conn = record s.conn { in_buffer = D.ring_write b s.conn.in_buffer };
              })
          given_p s = ground arith

      handle_read-Outcome :
          (s : State D)
          → s.conn.connected ≡ true
          → Outcome D s.conn.fd s (handle_read D H P s.conn.fd s).1
      unfolding handle_read
      handle_read-Outcome s up =
          let r = D.read s.conn.fd default_packet_size s.os in
          let s1 : State D = record s { os = r.2 } in
          let same : Stays D s s1 = ground arith in
          let d = deliver D H P r.0 s1 in
          let kept = deliver-Stays r.0 s1 in
          elim (Bool-cases (is_nil r.0 || is_some r.1)) [
            | inl bad ↦ rw (bad, handle_read) (behind D same (failed s.conn.fd r.1 s1 up))
            | inr good ↦
                rw (good, handle_read)
                  (behind D same (
                    behind D kept (
                      subst (λ fd. Outcome D fd d.1 (send_answers D H d).1) kept.stay_fd
                        (send_answers-Outcome d.0 d.1 (kept.stay_connected ∙ up)))))
          ]
        where
          failed :
              (fd : ℕ) (e : Option Errno) (s : State D)
              → s.conn.connected ≡ true
              → Outcome D fd s (read_failed D H fd e s).1
          failed fd e s up = elim (Bool-cases (is_again D e)) [
            | inl again ↦ unfold read_failed in rw again (stays (Stays-refl D s))
            | inr fatal ↦
                unfold read_failed in rw fatal (handle_close-Outcome D H fd s s (Stays-refl D s) up)
          ]

      sync_lengths-Stays : (s : State D) → Stays D s (sync_lengths D s)
      unfolding sync_lengths
      sync_lengths-Stays s = ground arith

      finish_write-Outcome :
          (fd : ℕ) (s : State D) (r : Bool × State D)
          → Outcome D fd s r.1
          → Outcome D fd s (finish_write D r)
      unfolding sync_lengths
      finish_write-Outcome fd s (true, t) o = o
      finish_write-Outcome fd s (false, t) o = before D o (reset t)
        where
          reset : (t : State D) → Stays D t (finish_write D (false, t))
          reset t = ground arith

      finish_read-Outcome :
          (fd : ℕ) (s : State D) (r : Bool × State D)
          → Outcome D fd s r.1
          → Outcome D fd s (finish_read D r)
      unfolding sync_lengths
      finish_read-Outcome fd s (true, t) o = o
      finish_read-Outcome fd s (false, t) o = before D o (reset t)
        where
          reset : (t : State D) → Stays D t (finish_read D (false, t))
          reset t = ground arith

      write_side-Outcome :
          (events : ℕ) (s : State D)
          → s.conn.connected ≡ true
          → Outcome D s.conn.fd s (write_side D H s.conn.fd events s)
      unfolding write_side
      write_side-Outcome events s up = elim (Bool-cases (has events event_write)) [
        | inl e ↦
            rw (e, write_side)
              (finish_write-Outcome s.conn.fd s (handle_write D H s.conn.fd s)
                (handle_write-Outcome D H s.conn.fd s up))
        | inr e ↦ rw (e, write_side) (stays (sync_lengths-Stays s))
      ]

      read_side-Outcome :
          (events : ℕ) (s : State D)
          → s.conn.connected ≡ true
          → Outcome D s.conn.fd s (read_side D H P s.conn.fd events s)
      unfolding read_side
      read_side-Outcome events s up = elim (Bool-cases (has events event_read)) [
        | inl e ↦
            rw (e, read_side)
              (finish_read-Outcome s.conn.fd s (handle_read D H P s.conn.fd s)
                (handle_read-Outcome s up))
        | inr e ↦ rw (e, read_side) (stays (sync_lengths-Stays s))
      ]

      dispatch_event-Outcome :
          (events : ℕ) (s : State D)
          → s.conn.connected ≡ true
          → Outcome D s.conn.fd s (dispatch_event D H P s.conn.fd events s)
      unfolding dispatch_event
      dispatch_event-Outcome events s up = elim (Bool-cases (has events event_err)) [
        | inl e ↦
            rw (e, dispatch_event) (handle_close-Outcome D H s.conn.fd s s (Stays-refl D s) up)
        | inr e ↦ elim (Bool-cases (D.is_empty s.conn.out_buffer)) [
          | inl o ↦ rw (e, dispatch_event) (rw (o, dispatch_event) (read_side-Outcome events s up))
          | inr o ↦ rw (e, dispatch_event) (rw (o, dispatch_event) (write_side-Outcome events s up))
        ]
      ]

      touch-Stays : (s : State D) → Stays D s (touch D s)
      unfolding touch
      touch-Stays s = ground arith

      pub handle_event-Outcome :
          (events : ℕ) (s : State D)
          → s.conn.connected ≡ true
          → Outcome D s.conn.fd s (handle_event D H P s.conn.fd events s)
      unfolding handle_event
      handle_event-Outcome events s up =
          let t = touch-Stays s in
          behind D t (
            subst (λ fd. Outcome D fd (touch D s) (dispatch_event D H P fd events (touch D s)))
              t.stay_fd (dispatch_event-Outcome events (touch D s) (t.stay_connected ∙ up)))

      finish_with-Stays :
          (f : Option ℕ) (v : D.Data) (s : State D) → Stays D s (finish_with D H f v s)
      finish_with-Stays none v s = Stays-refl D s
      finish_with-Stays (some f) v s =
          Keeps-Stays D (run_callback-Keeps D (H.on_finish f v s.user) s)

      pub run_send-Outcome :
          (v : D.Data) (f : Option ℕ) (s : State D)
          → s.conn.connected ≡ true
          → Outcome D s.conn.fd s (run_send D H P v f s)
      unfolding run_send
      run_send-Outcome v f s up =
          let b = P.packet s.conn v in
          let t = (send_in_loop D H b s).1 in
          subst (λ q. Outcome D s.conn.fd s q)
            (sym (ap (λ c. if c then finish_with D H f v t else s) up))
            (before D (send_in_loop-Outcome D H b s up) (finish_with-Stays f v t))
