-- ===== src/Plugins/Websocket.antt =====
-- plugins/websocket: the protocol and the handler wrap. What they call of plugins/websocket/ws, a copy of
-- github.com/gobwas/ws, and of the ring's virtual reads are the fields of `Ws`.
pub mod Frames
pub mod Marked
use gev.Base.{
  ℕ, ◌≤◌, Bool, true, false, not, ◌&&◌, List, [], ◌∷◌, ◌++◌, Option, none, some, if◌then◌else◌, leb,
  ltb, is_nil, is_some, length,
}
use gev.Context
use gev.Deps.{Deps, Bytes}
use gev.Connection.{Connection, Unpacked, Call, call_set, call_shutdown_write}

pub data HeaderError : Type 0 where
  not_ready : HeaderError
  malformed : ℕ → HeaderError

pub data Parsed (A : Type 0) : Type 0 where
  parsed : A → Parsed A
  refused : HeaderError → Parsed A

pub data OpCode : Type 0 where
  op_close op_ping op_pong : OpCode
  -- Another control code, and a data code.
  other_control other_data : OpCode

abbrev pub is_control : OpCode → Bool
is_control other_data = false
is_control _ = true

pub data MessageType : Type 0 where
  message_text message_binary : MessageType
  message_other : ℕ → MessageType

pub record Ws (D : Deps) : Type 1 where
  pub Header : Type 0
  pub op_code : Header → OpCode
  pub header_length : Header → ℕ
  pub masked : Header → Bool
  pub to_ctx : Header → D.Ctx
  -- The assertion `ctx.(*ws.Header)`.
  pub of_ctx : D.Ctx → Option Header
  -- `Upgrade`: the answer, whether it failed, the rest of the buffer, and what the upgrader's callbacks
  -- did to the user's state and called.
  pub upgrade : Connection D → D.User → D.Ring → Bytes × Bool × D.Ring × D.User × List (Call D)
  pub virtual_read_header : D.Ring → Parsed Header × D.Ring
  pub virtual_length : D.Ring → ℕ
  pub virtual_flush : D.Ring → D.Ring
  pub virtual_revert : D.Ring → D.Ring
  pub cipher : Bytes → Header → Bytes
  -- The answers to control frames, with the error behind them, which is only logged.
  pub handle_close : Header → Bytes → Bytes
  pub handle_ping : Bytes → Bytes
  pub handle_pong : Bytes → Bytes
  pub binary_frame : Bytes → Bytes
  pub text_frame : Bytes → Bytes
  -- The values `true` and the header buffer, under the keys of the context.
  pub upgraded_value : D.Value
  pub header_buffer : D.Value
  pub of_bytes : Bytes → D.Data

-- The keys of the context are texts of the program.
abbrev pub upgraded_key : Prim.Native.String.String
upgraded_key = "gev_ws_upgraded"

abbrev pub headerbuffer_key : Prim.Native.String.String
headerbuffer_key = "gev_header_buf"

module _ (D : Deps) (S : Ws D) where
  -- A call that gives no message.
  abbrev pub nothing : D.User → Bytes → D.Ring → Unpacked D
  nothing user ub r = record {
    ctx = none;
    received = [];
    rest = r;
    user_buffer = ub;
    user = user;
    calls = [];
  }

  unfoldable pub un_packet_handshake : Connection D → D.User → Bytes → D.Ring → Unpacked D
  un_packet_handshake c user ub r =
      let (out, failed, rest, user', calls) = S.upgrade c user r in
      record {
        ctx = none;
        received = out;
        rest = rest;
        user_buffer = ub;
        user = user';
        calls =
            if failed
            then calls
            else calls
              ++ (call_set upgraded_key S.upgraded_value
                  ∷ call_set headerbuffer_key S.header_buffer
                  ∷ []);
      }

  -- The payload is there in full.
  unfoldable pub take_payload : S.Header → D.User → Bytes → D.Ring → Unpacked D
  take_payload header user ub r =
      let (payload, rest) = D.ring_read (S.header_length header) (S.virtual_flush r) in
      record {
        ctx = some (S.to_ctx header);
        received = if S.masked header then S.cipher payload header else payload;
        rest = rest;
        user_buffer = ub;
        user = user;
        calls = [];
      }

  pub un_packet_frame : Parsed S.Header × D.Ring → D.User → Bytes → Unpacked D
  unfolding take_payload
  un_packet_frame (refused e, r) user ub = nothing user ub r
  un_packet_frame (parsed header, r) user ub =
      if leb (S.header_length header) (S.virtual_length r)
      then take_payload header user ub r
      else nothing user ub (S.virtual_revert r)

  unfoldable pub un_packet : Connection D → D.User → Bytes → D.Ring → Unpacked D
  unfolding un_packet_handshake un_packet_frame
  un_packet c user ub r =
      if is_some (Context.get upgraded_key c.key_values)
      then un_packet_frame (S.virtual_read_header r) user ub
      else un_packet_handshake c user ub r

-- The handler of the user of the plugin.
pub record WsHandler (D : Deps) : Type 0 where
  pub on_connect : Connection D → D.User → D.User × List (Call D)
  pub on_message : Connection D → Bytes → D.User → D.User × List (Call D) × MessageType × Bytes
  pub on_close : Connection D → D.User → D.User × List (Call D)

-- What `OnMessage` gives; `panicked` is the use of a nil frame.
pub data Answer (D : Deps) : Type 0 where
  answer : D.User → List (Call D) → Option Bytes → Answer D
  panicked : Answer D

module _ (D : Deps) (S : Ws D) (H : WsHandler D) where
  abbrev control_answer : OpCode → S.Header → Bytes → Option Bytes
  control_answer op_close h p = some (S.handle_close h p)
  control_answer op_ping h p = some (S.handle_ping p)
  control_answer op_pong h p = some (S.handle_pong p)
  control_answer other_control h p = some []
  control_answer other_data h p = some []

  abbrev control_calls : OpCode → List (Call D)
  control_calls op_close = call_shutdown_write ∷ []
  control_calls op_ping = []
  control_calls op_pong = []
  control_calls other_control = []
  control_calls other_data = []

  frame_answer : MessageType → Bytes → D.User → List (Call D) → Answer D
  frame_answer message_text out user calls = answer user calls (some (S.text_frame out))
  frame_answer message_binary out user calls = answer user calls (some (S.binary_frame out))
  frame_answer (message_other n) out user calls = panicked

  message_answer : D.User × List (Call D) × MessageType × Bytes → Answer D
  unfolding frame_answer
  message_answer (user, calls, kind, out) =
      if not (is_nil out) then frame_answer kind out user calls else answer user calls none

  header_answer : Connection D → S.Header → Bytes → D.User → Answer D
  unfolding message_answer
  header_answer c h payload user =
      if is_control (S.op_code h)
      then answer user (control_calls (S.op_code h)) (control_answer (S.op_code h) h payload)
      else message_answer (H.on_message c payload user)

  -- `ctx.(*ws.Header)`.
  abbrev header_of : Option D.Ctx → Option S.Header
  header_of none = none
  header_of (some x) = S.of_ctx x

  on_header : Connection D → Option S.Header → Bytes → D.User → Answer D
  unfolding header_answer
  on_header c none payload user =
      answer user [] (if not (is_nil payload) then some payload else none)
  on_header c (some h) payload user = header_answer c h payload user

  unfoldable pub on_message : Connection D → Option D.Ctx → Bytes → D.User → Answer D
  unfolding on_header
  on_message c ctx payload user = on_header c (header_of ctx) payload user

  unfoldable pub on_connect : Connection D → D.User → D.User × List (Call D)
  on_connect c user = H.on_connect c user

  -- The header buffer goes back to the pool of its package.
  unfoldable pub on_close : Connection D → D.User → D.User × List (Call D)
  on_close c user = H.on_close c user
