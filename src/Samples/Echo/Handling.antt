-- ===== src/Samples/Echo/Handling.antt =====
-- example/echo/main.go: what `handleRead` and `handleWrite` do to the bytes that an echo server owes.
use gev.Base.{
  ℕ, ◌≡◌, refl, sym, ap, ◌∙◌, subst, false, ◌||◌, [], ◌++◌, Option, Bool-cases, inl, inr, arith,
  is_nil, is_some,
}
use gev.Deps.{Deps, Bytes, Errno}
use gev.Deps.Laws.{RingLaws, WriteLaws, ReadLaws, contents}
use gev.EventLoop.{default_packet_size}
use gev.Connection.{State, Handler}
use gev.Connection.Read.{deliver, handle_read, read_failed, send_answers, is_again}
use gev.Connection.Send.{send_in_loop}
use gev.Connection.Send.Stream.{stream, send_in_loop-stream}
use gev.Connection.Event.{handle_write}
use gev.Connection.Event.Flow.{handle_write-stream}
use gev.Protocol.{Protocol}
use gev.Protocol.Default.{default_protocol}
use gev.Samples.Echo.Still.{send_in_loop-Still, handle_write-Still}
use gev.Samples.Echo.Message.{Echoes, deliver_lem}
use gev.Samples.Echo.Balance.{
  read_nothing, read-balance, read_nothing-Echoed, Quiet-balance, Echoed, received_of, with_os,
}

module _ (D : Deps) (R : RingLaws D) (sent received : ℕ → D.Os → Bytes) (W : WriteLaws D sent)
    (L : ReadLaws D sent received) (assert_bytes : D.Data → Bytes) (H : Handler D)
    (E : Echoes D H (default_protocol D R assert_bytes)) where
  abbrev P : Protocol D
  P = default_protocol D R assert_bytes

  -- A send of what was read behind all that was received before.
  send-Echoed :
      (b : Bytes) (s : State D)
      → contents D s.conn.in_buffer ≡ []
      → stream D sent s ++ b ≡ received_of D R sent received W L s
      → (send_in_loop D H b s).0 ≡ false
      → Echoed D R sent received W L (send_in_loop D H b s).1
  send-Echoed b s idle owed h =
      let k = send_in_loop-Still D sent received L H b s h in
      let t = (send_in_loop D H b s).1 in
      record {
        drained = ap (contents D) k.still_in ∙ idle;
        balance =
            send_in_loop-stream D R sent W H b s h
            ∙ owed
            ∙ sym k.still_received
            ∙ ap (λ fd. received fd t.os) (sym k.still_fd);
      }

  send_answers-Echoed :
      (b : Bytes) (s : State D)
      → is_nil b ≡ false
      → contents D s.conn.in_buffer ≡ []
      → stream D sent s ++ b ≡ received_of D R sent received W L s
      → (send_answers D H (b, s)).0 ≡ false
      → Echoed D R sent received W L (send_answers D H (b, s)).1
  unfolding send_answers
  send_answers-Echoed b s full idle owed h =
      rw (full, send_answers) (send-Echoed b s idle owed (rw (full, send_answers) at h))

  read_failed_lem :
      (fd : ℕ) (e : Option Errno) (s : State D)
      → (read_failed D H fd e s).0 ≡ false
      → (read_failed D H fd e s).1 ≡ s
  unfolding read_failed
  read_failed_lem fd e s h = elim (Bool-cases (is_again D e)) [
    | inl again ↦ rw (again, read_failed) refl
    | inr fatal ↦ absurd (ground arith)
  ]

  pub handle_read-Echoed :
      (fd : ℕ) (s : State D)
      → Echoed D R sent received W L s
      → (handle_read D H P fd s).0 ≡ false
      → Echoed D R sent received W L (handle_read D H P fd s).1
  unfolding handle_read
  handle_read-Echoed fd s v h =
      let r = D.read s.conn.fd default_packet_size s.os in
      let s1 = with_os D R sent received W L r.2 s in
      let d = deliver D H P r.0 s1 in
      elim (Bool-cases (is_nil r.0 || is_some r.1)) [
        | inl bad ↦
            let same = read_failed_lem fd r.1 s1 (rw (bad, handle_read) at h) in
            rw (bad, handle_read)
              (subst (λ t. Echoed D R sent received W L t) (sym same)
                (read_nothing-Echoed D R sent received W L default_packet_size s v
                  (read_nothing D R sent received W L default_packet_size s bad)))
        | inr good ↦
            let full : is_nil r.0 ≡ false = ground arith in
            let (answer, quiet) = deliver_lem D R assert_bytes H E r.0 s1 full v.drained in
            rw (good, handle_read)
              (send_answers-Echoed d.0 d.1 (ap is_nil answer ∙ full)
                (ap (contents D) quiet.quiet_in ∙ v.drained)
                (Quiet-balance D R sent received W L s1 d.1 r.0 d.0 quiet answer
                  (read-balance D R sent received W L default_packet_size s v))
                (rw (good, handle_read) at h))
      ]

  pub handle_write-Echoed :
      (fd : ℕ) (s : State D)
      → Echoed D R sent received W L s
      → (handle_write D H fd s).0 ≡ false
      → Echoed D R sent received W L (handle_write D H fd s).1
  handle_write-Echoed fd s v h =
      let k = handle_write-Still D sent received L H fd s h in
      let t = (handle_write D H fd s).1 in
      record {
        drained = ap (contents D) k.still_in ∙ v.drained;
        balance =
            handle_write-stream D R sent W H fd s h
            ∙ v.balance
            ∙ sym k.still_received
            ∙ ap (λ fd. received fd t.os) (sym k.still_fd);
      }
