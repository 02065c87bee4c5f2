-- ===== src/Examples/Reading.antt =====
-- What `handleRead` does with what it has read, on small runs.
use gev.Base.{List, ℕ, ◌≡◌, refl, sym, ◌∙◌, [], ◌∷◌, arith}
use gev.Deps.{Bytes}
use gev.Deps.Laws.{contents}
use gev.Deps.Simple.{sim, sim-RingLaws}
use gev.Connection.{Connection}
use gev.Connection.Read.{deliver}
use gev.Connection.Read.Reference.{IsBlind, blur, blur_conn, deliver_reference}
use gev.Connection.Read.Reference.Equivalence.{deliver-deliver_reference}
use gev.Protocol.Default.{packet, un_packet, un_packet_lem, un_packet_quiet}
use gev.Examples.{echo, raw, state}

raw-blind :
    (b i : Bytes × Bytes) (c : Connection sim) (user : List ℕ) (ub ub' : Bytes)
    (r r' : Bytes × Bytes)
    → contents sim r' ≡ contents sim r
    → let u = un_packet sim c user ub r in
      let u' = un_packet sim (blur_conn sim b i c) user ub' r' in
      (u'.ctx ≡ u.ctx)
      × (u'.received ≡ u.received)
      × (u'.user ≡ u.user)
      × (u'.calls ≡ u.calls)
      × (contents sim u'.rest ≡ contents sim u.rest)
raw-blind b i c user ub ub' r r' h =
    let (got, left, ctx) = un_packet_lem sim sim-RingLaws c user ub r in
    let (got', left', ctx') = un_packet_lem sim sim-RingLaws (blur_conn sim b i c) user ub' r' in
    let (same_user, calls) = un_packet_quiet sim c user ub r in
    let (same_user', calls') = un_packet_quiet sim (blur_conn sim b i c) user ub' r' in
    (
      ctx' ∙ sym ctx,
      got' ∙ h ∙ sym got,
      same_user' ∙ sym same_user,
      calls' ∙ sym calls,
      left' ∙ sym left,
    )

raw-flat :
    (c : Connection sim) (user : List ℕ) (ub : Bytes) (r : Bytes × Bytes)
    → r.1 ≡ []
    → (un_packet sim c user ub r).rest.1 ≡ []
unfolding un_packet
raw-flat c user ub r h = ground arith

echo-raw-IsBlind : IsBlind sim echo raw
unfolding packet
echo-raw-IsBlind = record {
  blind_message = λ b i c ctx bts user. refl;
  blind_packet = λ b i c v. refl;
  blind_un_packet = raw-blind;
  flat_rest = raw-flat;
}

deliver-deliver_reference_example :
    let s = state ([], []) in
    let r = deliver sim echo raw (7 ∷ 8 ∷ []) s in
    let r' = deliver_reference sim echo raw (7 ∷ 8 ∷ []) s in
    (r'.0 ≡ r.0)
    × ((b : Bytes × Bytes) × (i : Bytes × Bytes) × (ub : Bytes) × (r'.1 ≡ blur sim b i ub r.1))
    × (contents sim r'.1.conn.in_buffer ≡ contents sim r.1.conn.in_buffer)
deliver-deliver_reference_example =
    deliver-deliver_reference sim echo raw echo-raw-IsBlind sim-RingLaws (7 ∷ 8 ∷ [])
      (state ([], [])) (λ b r. refl)
