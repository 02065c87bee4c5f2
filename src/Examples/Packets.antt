-- ===== src/Examples/Packets.antt =====
-- The protocols, the context and the options: the theorems on small inputs.
use gev.Base.{ℕ, ◌≡◌, refl, ◌++◌, false, List, [], ◌∷◌, none, some, arith, length}
use gev.Deps.Laws.{contents}
use gev.Deps.Simple.{sim, sim-RingLaws}
use gev.Connection.{State, call_delete}
use gev.Connection.Close.{perform, perform_all}
use gev.Plugins.Protobuf
use gev.Plugins.Protobuf.{Message, pack_message}
use gev.Plugins.Protobuf.Codec.{un_packet-pack_message, un_packet_panics}
use gev.Plugins.Websocket
use gev.Plugins.Websocket.{
  Ws, parsed, refused, not_ready, op_ping, is_control, upgraded_key, WsHandler, message_text,
}
use gev.Examples.{conn, state}

-- The type name `7 8`, the data `1 2 3`, and one more byte behind the frame.
un_packet-pack_message_example :
    (m : Message sim) × (Protobuf.un_packet sim (pack_message (7 ∷ 8 ∷ []) (1 ∷ 2 ∷ 3 ∷ []), 9 ∷ [])
      ≡ some m)
    × (m.ctx ≡ some (7 ∷ 8 ∷ []))
    × (m.out ≡ 1 ∷ 2 ∷ 3 ∷ [])
    × (contents sim m.rest ≡ 9 ∷ [])
un_packet-pack_message_example =
    un_packet-pack_message sim sim-RingLaws (7 ∷ 8 ∷ []) (1 ∷ 2 ∷ 3 ∷ []) (9 ∷ [])
      (pack_message (7 ∷ 8 ∷ []) (1 ∷ 2 ∷ 3 ∷ []), 9 ∷ []) (omega arith) (omega arith) (omega arith)
      refl

-- A frame of three bytes says that its type name has five.
un_packet_panics_example : Protobuf.un_packet sim (0 ∷ 0 ∷ 0 ∷ 3 ∷ 0 ∷ 5 ∷ 7 ∷ [], []) ≡ none
un_packet_panics_example =
    un_packet_panics sim sim-RingLaws 0 0 0 3 0 5 (7 ∷ []) (0 ∷ 0 ∷ 0 ∷ 3 ∷ 0 ∷ 5 ∷ 7 ∷ [], []) refl
      (omega arith) (omega arith) (omega arith)

-- A plugin whose header is one byte, the length of the payload; every frame is a ping.
abbrev peek_header : List ℕ → Websocket.Parsed ℕ
peek_header [] = refused not_ready
peek_header (n ∷ bs) = parsed n

abbrev pings : Ws sim
pings = record {
  Header = ℕ;
  op_code = λ h. op_ping;
  header_length = λ h. h;
  masked = λ h. false;
  to_ctx = λ h. h;
  of_ctx = λ x. some x;
  upgrade = λ c user r. (4 ∷ [], false, ([], []), user, []);
  virtual_read_header = λ r. (peek_header (r.0 ++ r.1), r);
  virtual_length = λ r. length (r.0 ++ r.1);
  virtual_flush = λ r. r;
  virtual_revert = λ r. r;
  cipher = λ b h. b;
  handle_close = λ h b. b;
  handle_ping = λ b. b;
  handle_pong = λ b. b;
  binary_frame = λ b. b;
  text_frame = λ b. b;
  upgraded_value = 1;
  header_buffer = 2;
  of_bytes = λ b. b;
}

-- The connection after the handshake; then a frame, a key of the user's, and a frame again.
abbrev shaken : State sim
shaken =
    perform_all sim (Websocket.un_packet sim pings (conn ([], [])) [] [] (5 ∷ [], [])).calls
      (state ([], []))

abbrev in_use : State sim
in_use = perform sim (call_delete "room") (
    perform_all sim (Websocket.un_packet sim pings shaken.conn shaken.user [] (2 ∷ [], [])).calls
      shaken)
