-- ===== src/Connection/Read/Termination.antt =====
-- connection.go: the loop of `handlerProtocol` on fuel, against its text without.
use gev.Base.{
  ℕ, zero, suc, ◌<◌, ◌≡◌, refl, ap, ◌∙◌, true, false, [], ◌++◌, arith, inl, inr, Bool-cases,
}
use gev.Deps.{Deps, Bytes}
use gev.Connection.{State, Handler}
use gev.Connection.Read.{
  Source, ring_of, after_un_packet, call_un_packet, on_message, protocol_loop, handler_protocol,
}
use gev.Connection.Read.Frame.{after_un_packet-ring, on_message-ring}
use gev.Protocol.{Protocol, is_message}

-- The loop as its text describes it, with no bound on the rounds: it stops where `UnPacket` gives no
-- message, and otherwise answers the message and goes on.
pub data Runs (D : Deps) (H : Handler D) (P : Protocol D) (source : Source)
    : Bytes → State D → Bytes × State D → Type 0 where
  stop :
      {tmp : Bytes} {s : State D} {r : Bytes × State D}
      → is_message (call_un_packet D P source s) ≡ false
      → r ≡ (tmp, after_un_packet D source (call_un_packet D P source s) s)
      → Runs D H P source tmp s r
  round :
      {tmp : Bytes} {s : State D} {r : Bytes × State D}
      → is_message (call_un_packet D P source s) ≡ true
      → (reply : Bytes) (t : State D)
      → on_message D H P
          (call_un_packet D P source s)
          (after_un_packet D source (call_un_packet D P source s) s)
        ≡ (reply, t)
      → Runs D H P source (tmp ++ reply) t r
      → Runs D H P source tmp s r

module _ (D : Deps) (H : Handler D) (P : Protocol D) (source : Source) where
  abbrev left : State D → ℕ
  left s = D.ring_length (ring_of D source s.conn)

  taken :
      (s : State D)
      → is_message (call_un_packet D P source s) ≡ true
      → D.ring_length (call_un_packet D P source s).rest < left s
  unfolding call_un_packet
  taken s more = P.progress s.conn s.user s.loop.user_buffer (ring_of D source s.conn) more

  left_falls :
      (s : State D)
      → is_message (call_un_packet D P source s) ≡ true
      → left
          (on_message D H P
            (call_un_packet D P source s)
            (after_un_packet D source (call_un_packet D P source s) s)).1
        < left s
  left_falls s more =
      let u = call_un_packet D P source s in
      let s1 = after_un_packet D source u s in
      let e = on_message-ring D H P source u s1 ∙ after_un_packet-ring D source u s in
      omega (arith, ap D.ring_length e, taken s more)

  protocol_loop-Runs :
      (fuel : ℕ) (tmp : Bytes) (s : State D)
      → left s < fuel
      → Runs D H P source tmp s (protocol_loop D fuel H P source tmp s)
  unfolding protocol_loop
  protocol_loop-Runs zero tmp s h = elim h [ ]
  protocol_loop-Runs (suc fuel) tmp s h =
      let u = call_un_packet D P source s in
      let m = on_message D H P u (after_un_packet D source u s) in
      elim (Bool-cases (is_message u)) [
        | inl more ↦
            rw (more, protocol_loop)
              (round more m.0 m.1 refl
                (protocol_loop-Runs fuel (tmp ++ m.0) m.1 (omega (arith, left_falls s more))))
        | inr done ↦ rw (done, protocol_loop) (stop done refl)
      ]

  -- For every protocol that takes bytes with each message, the loop of `handlerProtocol` ends, by its own
  -- test: `UnPacket` gave no message. It answers each message that came before, in order.
  pub handler_protocol-Runs :
      (s : State D) → Runs D H P source [] s (handler_protocol D H P source s)
  unfolding handler_protocol
  handler_protocol-Runs s = protocol_loop-Runs (suc (left s)) [] s (omega arith)
