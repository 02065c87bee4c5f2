-- ===== src/Connection.antt =====
-- connection.go: a connection, its buffers and its handlers. A method of `*Connection` is a function
-- on `State`, the connection with the loop that it belongs to, the kernel and the user's handler.
pub mod Close
pub mod Send
pub mod Read
pub mod Event
pub mod Idle
pub mod Closed
pub mod Life
pub mod Outcome
use Prim.Native.String.{String}
use gev.Base.{ℕ, Bool, List, Option}
use gev.Context.{KeyValueContext}
use gev.Deps.{Deps, Bytes, Sockaddr, inet4, inet6, unknown}
use gev.EventLoop.{EventLoop}

pub record Connection (D : Deps) : Type 0 where
  pub out_buffer_len : ℕ
  pub in_buffer_len : ℕ
  pub active_time : ℕ
  pub fd : ℕ
  pub connected : Bool
  pub buffer : D.Ring
  pub out_buffer : D.Ring
  pub in_buffer : D.Ring
  pub peer_addr : String
  pub ctx : Option D.Value
  pub key_values : KeyValueContext D.Value
  pub idle_time : ℕ
  pub timer : Option D.Timer

-- The functions that the program queues in a loop. The first number names the connection; the one
-- of `send_task` names the function given by `SendInLoop`.
pub data Task (D : Deps) : Type 0 where
  send_task : ℕ → D.Data → Option ℕ → Task D
  close_task : ℕ → Task D
  open_task : ℕ → ℕ → Task D
  stop_task : Task D

-- What a callback may do with its connection: `Send`, `Close`, `ShutdownWrite`, `SetContext`, and the
-- `Set` and `Delete` of the context. A call on another connection of the loop queues a task there.
pub data Call (D : Deps) : Type 0 where
  call_send : D.Data → Option ℕ → Call D
  call_close call_shutdown_write : Call D
  call_set_context : Option D.Value → Call D
  call_set : String → D.Value → Call D
  call_delete : String → Call D
  call_other : Task D → Call D

-- The callbacks of the user, with `OnConnect` of server.go and the function given by `SendInLoop`:
-- each gives the user's new state and the calls that it makes.
pub record Handler (D : Deps) : Type 0 where
  pub on_connect : Connection D → D.User → D.User × List (Call D)
  pub on_message :
      Connection D → Option D.Ctx → Bytes → D.User → D.User × List (Call D) × Option D.Data
  pub on_close : Connection D → D.User → D.User × List (Call D)
  pub on_finish : ℕ → D.Data → D.User → D.User × List (Call D)

-- What one call of `UnPacket` gives: the context, the data, and what it did to the buffer, to the
-- user buffer of the loop and, through its connection, to the user's state.
pub record Unpacked (D : Deps) : Type 0 where
  pub ctx : Option D.Ctx
  pub received : Bytes
  pub rest : D.Ring
  pub user_buffer : Bytes
  pub user : D.User
  pub calls : List (Call D)

pub record State (D : Deps) : Type 0 where
  pub self : ℕ
  pub conn : Connection D
  pub loop : EventLoop ℕ (Task D)
  pub os : D.Os
  pub user : D.User

-- `UserBuffer`, `Context`, `PeerAddr`, `Connected`, `ReadBufferLength` and `WriteBufferLength`.
abbrev pub user_buffer : {D : Deps} → State D → Bytes
user_buffer s = s.loop.user_buffer

abbrev pub context : {D : Deps} → Connection D → Option D.Value
context c = c.ctx

abbrev pub peer_addr : {D : Deps} → Connection D → String
peer_addr c = c.peer_addr

abbrev pub is_connected : {D : Deps} → Connection D → Bool
is_connected c = c.connected

abbrev pub read_buffer_length : {D : Deps} → Connection D → ℕ
read_buffer_length c = c.in_buffer_len

abbrev pub write_buffer_length : {D : Deps} → Connection D → ℕ
write_buffer_length c = c.out_buffer_len

-- `join_host_port` formats an address with its port, and `unknown_text` a type's name.
unfoldable pub sock_addr_to_string :
    {Text : Type 0} → (Bytes → ℕ → String) → (Text → String) → Sockaddr Text → String
sock_addr_to_string join_host_port unknown_text (inet4 a port) = join_host_port a port
sock_addr_to_string join_host_port unknown_text (inet6 a port) = join_host_port a port
sock_addr_to_string join_host_port unknown_text (unknown t) = unknown_text t
