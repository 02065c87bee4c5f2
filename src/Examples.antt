-- ===== src/Examples.antt =====
-- Concrete connections, loops and protocols, on which the children apply the theorems.
mod Connections
mod Loops
mod Packets
mod Reactors
mod Reading
mod Frames
mod Systems
mod Closers
mod Chats
mod Echo
mod Accepting
mod Goroutines
mod Setup
mod Servers
use gev.Base.{ℕ, true, false, List, [], ◌∷◌, Option, none, some, pos}
use gev.Deps.{Bytes}
use gev.Deps.Simple.{sim, sim-RingLaws, Os, quiet}
use gev.EventLoop.{EventLoop}
use gev.Poller.Epoll.{Poller}
use gev.Connection.{Connection, State, Handler, Task, call_close, call_send}
use gev.Protocol.{Protocol}
use gev.Protocol.Default.{default_protocol}
use gev.Reactor.{World}

abbrev pub poller : Poller
poller = record { fd = 4; event_fd = 9; running = true; wait_done = false }

abbrev pub loop : EventLoop ℕ (Task sim)
loop = record {
  conn_count = pos 1;
  need_wake = true;
  poll = poller;
  sockets = some ((7, 0) ∷ []);
  task_queue_w = [];
  task_queue_r = [];
  user_buffer = [];
}

-- An open connection whose write buffer is given.
abbrev pub conn : Bytes × Bytes → Connection sim
conn waiting = record {
  out_buffer_len = 0;
  in_buffer_len = 0;
  active_time = 0;
  fd = 7;
  connected = true;
  buffer = ([], []);
  out_buffer = waiting;
  in_buffer = ([], []);
  peer_addr = "127.0.0.1:9";
  ctx = none;
  key_values = record { kv = none };
  idle_time = 2;
  timer = none;
}

abbrev pub state : Bytes × Bytes → State sim
state waiting = record { self = 0; conn = conn waiting; loop = loop; os = quiet; user = [] }

-- A server that echoes, and that calls `Close` and `Send` when a connection ends.
abbrev pub echo : Handler sim
echo = record {
  on_connect = λ c user. (1 ∷ user, []);
  on_message = λ c ctx bytes user. (2 ∷ user, [], some bytes);
  on_close = λ c user. (3 ∷ user, call_close ∷ call_send (5 ∷ []) none ∷ []);
  on_finish = λ f value user. (4 ∷ user, []);
}

abbrev pub raw : Protocol sim
raw = default_protocol sim sim-RingLaws (λ value. value)

abbrev pub world : World sim
world = record { loop = loop; conns = λ c. conn ([], []); os = quiet; user = [] }
