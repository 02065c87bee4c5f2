-- ===== src/Samples/Echo/Stream.antt =====
-- example/echo/main.go: what a connection of an echo server was sent, against what it received.
use gev.Base.{
  ℕ, ◌≡◌, refl, sym, ap, ◌∙◌, subst, Bool, true, false, List, [], ◌∷◌, map, Bool-cases, inl, inr,
}
use gev.Deps.{Deps, Bytes}
use gev.Deps.Laws.{RingLaws, WriteLaws, ReadLaws, contents}
use gev.Poller.{event_err, event_read, event_write, has}
use gev.Connection.{State, Handler}
use gev.Connection.Closed.{handle_close_connected}
use gev.Connection.Read.{handle_read}
use gev.Connection.Send.Stream.{stream}
use gev.Connection.Event.{
  handle_event, handle_write, touch, finish_write, finish_read, write_side, read_side,
  dispatch_event,
}
use gev.Connection.Event.Closing.{handle_write-closed, handle_read-closed}
use gev.Connection.Life.{on_event, live, react, live-connected, live-open}
use gev.Protocol.{Protocol}
use gev.Protocol.Default
use gev.Samples.Echo.{counting, handler}
use gev.Protocol.Default.{default_protocol}
use gev.Samples.Echo.Handling.{handle_read-Echoed, handle_write-Echoed}
use gev.Samples.Echo.Message.{Echoes}
use gev.Samples.Echo.Balance.{
  sync_lengths-Echoed, touch-Echoed, reset_out-Echoed, reset_in-Echoed, Echoed,
}

module _ (D : Deps) (R : RingLaws D) (sent received : ℕ → D.Os → Bytes) (W : WriteLaws D sent)
    (L : ReadLaws D sent received) (assert_bytes : D.Data → Bytes) (H : Handler D)
    (E : Echoes D H (default_protocol D R assert_bytes)) where
  abbrev P : Protocol D
  P = default_protocol D R assert_bytes

  finish_write-Echoed :
      (r : Bool × State D)
      → (r.0 ≡ false → Echoed D R sent received W L r.1)
      → (r.0 ≡ true → r.1.conn.connected ≡ false)
      → (finish_write D r).conn.connected ≡ true
      → Echoed D R sent received W L (finish_write D r)
  finish_write-Echoed (true, t) v down up = absurd (cc (down refl))
  finish_write-Echoed (false, t) v down up =
      sync_lengths-Echoed D R sent received W L _
        (reset_out-Echoed D R sent received W L t (v refl))

  finish_read-Echoed :
      (r : Bool × State D)
      → (r.0 ≡ false → Echoed D R sent received W L r.1)
      → (r.0 ≡ true → r.1.conn.connected ≡ false)
      → (finish_read D r).conn.connected ≡ true
      → Echoed D R sent received W L (finish_read D r)
  finish_read-Echoed (true, t) v down up = absurd (cc (down refl))
  finish_read-Echoed (false, t) v down up =
      sync_lengths-Echoed D R sent received W L _ (reset_in-Echoed D R sent received W L t (v refl))

  write_side-Echoed :
      (fd events : ℕ) (s : State D)
      → Echoed D R sent received W L s
      → (write_side D H fd events s).conn.connected ≡ true
      → Echoed D R sent received W L (write_side D H fd events s)
  unfolding write_side
  write_side-Echoed fd events s v up = elim (Bool-cases (has events event_write)) [
    | inl e ↦
        rw (e, write_side)
          (finish_write-Echoed (handle_write D H fd s)
            (handle_write-Echoed D R sent received W L assert_bytes H E fd s v)
            (handle_write-closed D H fd s) (rw (e, write_side) at up))
    | inr e ↦ rw (e, write_side) (sync_lengths-Echoed D R sent received W L s v)
  ]

  read_side-Echoed :
      (fd events : ℕ) (s : State D)
      → Echoed D R sent received W L s
      → (read_side D H P fd events s).conn.connected ≡ true
      → Echoed D R sent received W L (read_side D H P fd events s)
  unfolding read_side
  read_side-Echoed fd events s v up = elim (Bool-cases (has events event_read)) [
    | inl e ↦
        rw (e, read_side)
          (finish_read-Echoed (handle_read D H P fd s)
            (handle_read-Echoed D R sent received W L assert_bytes H E fd s v)
            (handle_read-closed D H P fd s) (rw (e, read_side) at up))
    | inr e ↦ rw (e, read_side) (sync_lengths-Echoed D R sent received W L s v)
  ]

  dispatch_event-Echoed :
      (fd events : ℕ) (s : State D)
      → Echoed D R sent received W L s
      → (dispatch_event D H P fd events s).conn.connected ≡ true
      → Echoed D R sent received W L (dispatch_event D H P fd events s)
  unfolding dispatch_event
  dispatch_event-Echoed fd events s v up = elim (Bool-cases (has events event_err)) [
    | inl e ↦
        absurd (true_false (sym (rw (e, dispatch_event) at up) ∙ handle_close_connected D H fd s))
    | inr e ↦
        let up1 = rw (e, dispatch_event) at up in
        elim (Bool-cases (D.is_empty s.conn.out_buffer)) [
          | inl o ↦
              rw (e, dispatch_event)
                (rw (o, dispatch_event)
                  (read_side-Echoed fd events s v (rw (o, dispatch_event) at up1)))
          | inr o ↦
              rw (e, dispatch_event)
                (rw (o, dispatch_event)
                  (write_side-Echoed fd events s v (rw (o, dispatch_event) at up1)))
        ]
  ]
    where
      true_false : true ≡ false → ⊥
      true_false h = cc

  handle_event-Echoed :
      (fd events : ℕ) (s : State D)
      → Echoed D R sent received W L s
      → (handle_event D H P fd events s).conn.connected ≡ true
      → Echoed D R sent received W L (handle_event D H P fd events s)
  unfolding handle_event
  handle_event-Echoed fd events s v up =
      dispatch_event-Echoed fd events (touch D s) (touch-Echoed D R sent received W L s v) up

  pub live-Echoed :
      (xs : List ℕ) (s : State D)
      → Echoed D R sent received W L s
      → (live D H P (map on_event xs) s).conn.connected ≡ true
      → Echoed D R sent received W L (live D H P (map on_event xs) s)
  unfolding live
  live-Echoed [] s v up = v
  live-Echoed (x ∷ xs) s v up =
      let ys = map on_event xs in
      let here = live-connected D H P (on_event x ∷ ys) s up in
      let goes = live-open D H P (on_event x) ys s here in
      let after = ap (λ q. q.conn.connected) (sym goes) ∙ up in
      subst (λ q. Echoed D R sent received W L q) (sym goes)
        (live-Echoed xs (react D H P (on_event x) s)
          (reacts s v (live-connected D H P ys (react D H P (on_event x) s) after)) after)
    where
      reacts :
          (s : State D)
          → Echoed D R sent received W L s
          → (react D H P (on_event x) s).conn.connected ≡ true
          → Echoed D R sent received W L (react D H P (on_event x) s)
      reacts s v up = unfold react in handle_event-Echoed s.conn.fd x s v up

module _ (D : Deps) (of_bytes : Bytes → D.Data) (assert_bytes : D.Data → Bytes)
    (asserted : (b : Bytes) → assert_bytes (of_bytes b) ≡ b) (R : RingLaws (counting D)) where
  handler-Echoes :
      Echoes (counting D) (handler D of_bytes) (default_protocol (counting D) R assert_bytes)
  unfolding handler Default.packet
  handler-Echoes = record {
    no_calls = λ c ctx received user. refl;
    same_bytes = λ c d ctx received user. asserted received;
  }

  -- Over any sequence of events of a connection of the echo server, as long as it is open at the end, what the
  -- kernel took for it followed by what waits in its write buffer is all that was received from it, in
  -- order, and no bytes wait to be parsed, if that was so before.
  pub live-echo :
      (sent received : ℕ → D.Os → Bytes)
      → WriteLaws (counting D) sent
      → ReadLaws (counting D) sent received
      → (xs : List ℕ) (s : State (counting D)) → contents D s.conn.in_buffer ≡ []
      → stream (counting D) sent s ≡ received s.conn.fd s.os
      → (live
          (counting D)
          (handler D of_bytes)
          (default_protocol (counting D) R assert_bytes)
          (map on_event xs)
          s).conn.connected
        ≡ true
      → let P = default_protocol (counting D) R assert_bytes in
        let t = live (counting D) (handler D of_bytes) P (map on_event xs) s in
        (contents D t.conn.in_buffer ≡ []) × (stream (counting D) sent t ≡ received t.conn.fd t.os)
  live-echo sent received W L xs s idle even up =
      let v =
        live-Echoed (counting D) R sent received W L assert_bytes (handler D of_bytes)
          handler-Echoes xs s (record { drained = idle; balance = even }) up in
      (v.drained, v.balance)
