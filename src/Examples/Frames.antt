-- ===== src/Examples/Frames.antt =====
-- The frames of example/protocol, on small buffers.
use gev.Base.{
  ℕ, ◌≤◌, ◌≡◌, refl, List, [], ◌∷◌, ◌++◌, none, arith, length, length-append, take, drop,
}
use gev.Deps.{Bytes}
use gev.Deps.Laws.{contents}
use gev.Deps.Simple.{sim, sim-RingLaws}
use gev.Connection.{Connection, State, Handler}
use gev.Connection.Read.{fresh, ring_of, handler_protocol}
use gev.Samples.Framing.{VirtualRing, VirtualLaws, un_packet, packet, example_protocol}
use gev.Samples.Framing.Codec.{un_packet-packet}
use gev.Samples.Framing.Codec.Messages.{handler_protocol-frames, handler_protocol-empty_frame}
use gev.Examples.{conn, state}

-- The second piece of a ring is what is behind the virtual position.
abbrev virtual : VirtualRing sim
virtual = record {
  virtual_length = λ r. length r.1;
  virtual_read = λ n r. (take n r.1, (r.0 ++ take n r.1, drop n r.1));
  virtual_flush = λ r. ([], r.1);
  virtual_revert = λ r. ([], r.0 ++ r.1);
}

abbrev behind : Bytes × Bytes → Bytes
behind r = r.1

unread_le : (r : Bytes × Bytes) → length r.1 ≤ length (contents sim r)
unread_le r = omega (arith, length-append r.0 r.1)

virtual-VirtualLaws : VirtualLaws sim virtual behind
virtual-VirtualLaws = record {
  unread_le = unread_le;
  virtual_length_lem = λ r. refl;
  virtual_read_bytes = λ n r. refl;
  unread-virtual_read = λ n r. refl;
  contents-virtual_flush = λ r. refl;
  unread-virtual_flush = λ r. refl;
}

abbrev same : Bytes → Bytes
same b = b

abbrev here : Connection sim
here = conn ([], [])

-- A frame of two bytes, and a byte of the next.
abbrev one_frame : Bytes
one_frame = 0 ∷ 0 ∷ 0 ∷ 2 ∷ 7 ∷ 8 ∷ 0 ∷ []

un_packet-packet_example :
    let u = un_packet sim virtual here [] [] ([], one_frame) in
    (u.received ≡ 7 ∷ 8 ∷ [])
    × (u.ctx ≡ none)
    × (contents sim u.rest ≡ 0 ∷ [])
    × (behind u.rest ≡ 0 ∷ [])
unfolding packet
un_packet-packet_example =
    un_packet-packet sim virtual behind virtual-VirtualLaws same here here (7 ∷ 8 ∷ []) [] []
      (0 ∷ []) ([], one_frame) (omega arith) (omega arith) refl

-- A handler that keeps the first byte of what it is given.
abbrev first_byte : Bytes → List ℕ → List ℕ
first_byte [] user = user
first_byte (x ∷ bts) user = x ∷ user

abbrev recorder : Handler sim
recorder = record {
  on_connect = λ c user. (user, []);
  on_message = λ c ctx bts user. (first_byte bts user, [], none);
  on_close = λ c user. (user, []);
  on_finish = λ f value user. (user, []);
}

abbrev holding : Bytes → State sim
holding bts =
    let s = state ([], []) in let c = s.conn in record s { conn = record c { buffer = ([], bts) } }

handler_protocol-frames_example :
    let P = example_protocol sim sim-RingLaws virtual behind virtual-VirtualLaws same in
    let r =
      handler_protocol sim recorder P fresh
        (holding (0 ∷ 0 ∷ 0 ∷ 2 ∷ 7 ∷ 8 ∷ 0 ∷ 0 ∷ 0 ∷ 1 ∷ 9 ∷ 0 ∷ [])) in
    (r.0 ≡ []) × (r.1.user ≡ 9 ∷ 7 ∷ []) × (contents sim (ring_of sim fresh r.1.conn) ≡ 0 ∷ [])
unfolding packet
handler_protocol-frames_example =
    handler_protocol-frames sim sim-RingLaws virtual behind virtual-VirtualLaws same recorder
      first_byte (λ c ctx bts user. refl) fresh here ((7 ∷ 8 ∷ []) ∷ (9 ∷ []) ∷ []) (0 ∷ [])
      (holding (0 ∷ 0 ∷ 0 ∷ 2 ∷ 7 ∷ 8 ∷ 0 ∷ 0 ∷ 0 ∷ 1 ∷ 9 ∷ 0 ∷ []))
      (omega arith, omega arith, (omega arith, omega arith, tt)) (omega arith) refl refl

handler_protocol-empty_frame_example :
    let P = example_protocol sim sim-RingLaws virtual behind virtual-VirtualLaws same in
    let r =
      handler_protocol sim recorder P fresh (holding (0 ∷ 0 ∷ 0 ∷ 0 ∷ 0 ∷ 0 ∷ 0 ∷ 1 ∷ 9 ∷ [])) in
    (r.0 ≡ [])
    × (r.1.user ≡ [])
    × (contents sim (ring_of sim fresh r.1.conn) ≡ 0 ∷ 0 ∷ 0 ∷ 1 ∷ 9 ∷ [])
unfolding packet
handler_protocol-empty_frame_example =
    handler_protocol-empty_frame sim sim-RingLaws virtual behind virtual-VirtualLaws same recorder
      first_byte (λ c ctx bts user. refl) fresh here [] (0 ∷ 0 ∷ 0 ∷ 1 ∷ 9 ∷ [])
      (holding (0 ∷ 0 ∷ 0 ∷ 0 ∷ 0 ∷ 0 ∷ 0 ∷ 1 ∷ 9 ∷ [])) refl (omega arith) refl
