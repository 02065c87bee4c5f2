-- ===== src/Examples/Echo.antt =====
-- example/echo/main.go: a connection of the echo server that reads two bytes.
use gev.Base.{◌≡◌, refl, [], ◌∷◌, true, none, some, map, ℕ, pos}
use gev.Deps.{Bytes}
use gev.Deps.Laws.{RingLaws, WriteLaws, ReadLaws, contents}
use gev.Deps.Simple.{sim, sim-RingLaws, sim-WriteLaws, sim-ReadLaws, Os, quiet}
use gev.Poller
use gev.Connection.{State, Task}
use gev.Connection.Close.{perform_all}
use gev.Connection.Life.{on_event, live}
use gev.Connection.Read.{call_un_packet, protocol_loop, handle_read}
use gev.Connection.Send.{send_in_loop}
use gev.Connection.Send.Stream.{stream}
use gev.Connection.Event.{handle_event}
use gev.EventLoop
use gev.EventLoop.{EventLoop}
use gev.Poller.Epoll
use gev.Protocol.Default
use gev.Protocol.Default.{default_protocol}
use gev.Samples.Echo.{counting, handler}
use gev.Samples.Echo.Stream.{live-echo}
use gev.Examples.{poller}

abbrev sent : ℕ → Os → Bytes
sent fd os = os.sent fd

abbrev received : ℕ → Os → Bytes
received fd os = os.received fd

abbrev loop : EventLoop ℕ (Task (counting sim))
loop = record {
  conn_count = pos 1;
  need_wake = true;
  poll = poller;
  sockets = some ((7, 0) ∷ []);
  task_queue_w = [];
  task_queue_r = [];
  user_buffer = [];
}

abbrev opened : State (counting sim)
opened = record {
  self = 0;
  conn = record {
    out_buffer_len = 0;
    in_buffer_len = 0;
    active_time = 0;
    fd = 7;
    connected = true;
    buffer = ([], []);
    out_buffer = ([], []);
    in_buffer = ([], []);
    peer_addr = "127.0.0.1:9";
    ctx = none;
    key_values = record { kv = none };
    idle_time = 2;
    timer = none;
  };
  loop = loop;
  os = quiet;
  user = pos 1;
}

echo-RingLaws : RingLaws (counting sim)
echo-RingLaws = record {
  is_empty_lem = sim-RingLaws.is_empty_lem;
  ring_length_lem = sim-RingLaws.ring_length_lem;
  contents-new_ring = sim-RingLaws.contents-new_ring;
  contents-ring_write = sim-RingLaws.contents-ring_write;
  contents-retrieve = sim-RingLaws.contents-retrieve;
  contents-retrieve_all = sim-RingLaws.contents-retrieve_all;
  contents-reset = sim-RingLaws.contents-reset;
  contents-with_data = sim-RingLaws.contents-with_data;
  ring_read_bytes = sim-RingLaws.ring_read_bytes;
  ring_read_rest = sim-RingLaws.ring_read_rest;
  peek_uint32_lem = sim-RingLaws.peek_uint32_lem;
  peek_uint16_lem = sim-RingLaws.peek_uint16_lem;
}

echo-WriteLaws : WriteLaws (counting sim) sent
echo-WriteLaws = record {
  write_le = sim-WriteLaws.write_le;
  write_sent = sim-WriteLaws.write_sent;
  write_err = sim-WriteLaws.write_err;
  epoll_ctl_sent = sim-WriteLaws.epoll_ctl_sent;
}

echo-ReadLaws : ReadLaws (counting sim) sent received
echo-ReadLaws = record {
  read_received = sim-ReadLaws.read_received;
  read_err = sim-ReadLaws.read_err;
  read_sent = sim-ReadLaws.read_sent;
  write_received = sim-ReadLaws.write_received;
  epoll_ctl_received = sim-ReadLaws.epoll_ctl_received;
}

-- The packet of some bytes is these bytes, and so is what is made of them.
abbrev as_bytes : Bytes → Bytes
as_bytes b = b

abbrev after : State (counting sim)
after =
    live (counting sim) (handler sim as_bytes)
      (default_protocol (counting sim) echo-RingLaws as_bytes) (map on_event (1 ∷ [])) opened

stays_open : after.conn.connected ≡ true
unfolding live handle_event Poller.has handle_read protocol_loop call_un_packet Default.un_packet
    perform_all Default.packet send_in_loop handler EventLoop.enable_read_write
    Epoll.enable_read_write
stays_open = refl

live-echo_example :
    (contents sim after.conn.in_buffer ≡ [])
    × (stream (counting sim) sent after ≡ received after.conn.fd after.os)
live-echo_example =
    live-echo sim as_bytes as_bytes (λ b. refl) echo-RingLaws sent received echo-WriteLaws
      echo-ReadLaws (1 ∷ []) opened refl refl stays_open
