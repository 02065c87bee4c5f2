-- ===== src/Examples/Servers.antt =====
-- server_std.go and connection.go: a connection of Windows that other modules use; and the theorems on the published
-- lengths and the count of connections.
use gev.Base.{ℕ, ◌≡◌, refl, ◌++◌, true, false, [], ◌∷◌, none, some, take, is_some, pos, decr}
use gev.Deps.{Bytes}
use gev.Deps.Simple.{sim, sim-WriteLaws, Os, quiet}
use gev.Poller
use gev.Poller.Epoll
use gev.Protocol.Default
use gev.Connection.{close_task, open_task}
use gev.Connection.Close.{perform_all, run_callback}
use gev.Connection.Read.{call_un_packet, handle_read, protocol_loop}
use gev.Connection.Send.{send_in_loop}
use gev.Connection.Event.{handle_event}
use gev.Connection.Event.Lengths.{IsPublished, handle_event-IsPublished}
use gev.Reactor.{World, run_task}
use gev.Reactor.Count.{open_task-close_task}
use gev.Windows
use gev.Windows.{Parts, SendTask, call_send}
use gev.Windows.Stream.{ConnLaws}
use gev.Examples.{state, echo, raw, world}

read_open : (handle_event sim echo raw 7 1 (state ([], []))).conn.connected ≡ true
unfolding handle_event call_un_packet Default.un_packet Poller.has handle_read protocol_loop
    perform_all Default.packet send_in_loop
read_open = refl

handle_event-IsPublished_example : IsPublished sim (handle_event sim echo raw 7 1 (state ([], [])))
handle_event-IsPublished_example =
    handle_event-IsPublished sim echo raw 7 1 (state ([], [])) read_open

-- The kernel refuses the descriptor 200.
open_task-close_task_example :
    (w1 : World sim) × (w2 : World sim) × (run_task sim echo raw (open_task 1 200) world ≡ some w1)
    × (run_task sim echo raw (close_task 1) w1 ≡ some w2)
    × (w1.loop.conn_count ≡ pos 1)
    × (w2.loop.conn_count ≡ decr (pos 1))
unfolding Epoll.add_read run_callback
open_task-close_task_example =
    open_task-close_task sim echo raw 1 200 ((7, 0) ∷ []) _ world refl refl refl

-- A connection of Windows, with a protocol that hands on all of its buffer.
abbrev pub sockets : Parts sim
sockets = record {
  read = λ c room os. (take room (7 ∷ 8 ∷ []), none, os);
  write = λ c b os. let (n, e, os') = sim.write c b os in (n, is_some e, os');
  close_conn = λ c os. os;
  un_packet = λ r. (none, r.0 ++ r.1, ([], []));
  packet = λ v. v;
  on_message = λ ctx b user. (2 ∷ user, call_send (9 ∷ []) none ∷ [], some b);
  on_close = λ user. 3 ∷ user;
  on_finish = λ f v user. (4 ∷ user, []);
}

abbrev pub sent : ℕ → Os → Bytes
sent c os = os.sent c

pub sockets-ConnLaws : ConnLaws sim sockets sent
sockets-ConnLaws = record {
  write_le = λ c b os. sim-WriteLaws.write_le c b os;
  write_sent = λ c b os. sim-WriteLaws.write_sent c b os;
}

abbrev pub waiting : Bytes × Bytes → Windows.State sim
waiting r = record {
  self = 0;
  conn = record {
    connected = true;
    dying = false;
    user_buffer = [];
    buffer = ([], []);
    out_buffer = ([], []);
    in_buffer = r;
    out_buffer_len = 0;
    in_buffer_len = 0;
    ctx = none;
    key_values = record { kv = none };
    task_queue_w = [];
    task_queue_r = [];
    idle_time = 0;
    active_time = 0;
    timer = none;
  };
  os = quiet;
  user = [];
}
