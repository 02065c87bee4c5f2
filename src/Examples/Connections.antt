-- ===== src/Examples/Connections.antt =====
-- connection.go: the theorems on a connection, on runs of the echo server.
use gev.Base.{◌≡◌, refl, ◌++◌, true, false, [], ◌∷◌, some}
use gev.Deps.Simple.{sim, sim-RingLaws, sim-WriteLaws, sim-EpollLaws, Os}
use gev.EventLoop.{delete_socket}
use gev.Poller
use gev.EventLoop
use gev.Poller.Epoll
use gev.Base.{decr, ℕ, Option, pos}
use gev.Deps.{Bytes}
use gev.Protocol.Default
use gev.Connection.Close.{handle_close, perform_all}
use gev.Connection.Send.{send_in_loop, run_send}
use gev.Connection.Send.Stream.{stream, send_in_loop-stream}
use gev.Connection.Read.{fresh, call_un_packet, protocol_loop, handler_protocol, handle_read}
use gev.Connection.Read.Termination.{Runs, handler_protocol-Runs}
use gev.Connection.Event.{handle_event, handle_write, write_end}
use gev.Connection.Event.Flow.{handle_write-stream}
use gev.Connection.Event.Watch.{IsWatched}
use gev.Connection.Close.Once.{handle_close_lem}
use gev.Base.{◌+◌, ◌*◌, ◌<◌, ◌≤◌, ◌⊎◌}
use gev.Connection.{close_task}
use gev.Connection.Close.{send, close, err_connection_closed}
use gev.Connection.Idle.{close_timeout_conn, arm}
use gev.Connection.Idle.Deadline.{close_timeout_conn_lem}
use gev.Connection.Closed.{handle_close_silences}
use gev.Base.{List, none}
use gev.Connection.Life.{Stimulus, on_event, on_send, on_timer, live, live-IsWatched}
use gev.Connection.Event.{second}
use gev.Examples.{state, echo, raw}

abbrev watched : ℕ → ℕ → Os → Option ℕ
watched ep fd os = os.watched ep fd

abbrev sent : ℕ → Os → Bytes
sent fd os = os.sent fd

-- Five bytes, of which the kernel takes three.
send_stays_open : (send_in_loop sim echo (1 ∷ 2 ∷ 3 ∷ 4 ∷ 5 ∷ []) (state ([], []))).0 ≡ false
unfolding send_in_loop
send_stays_open = refl

send_in_loop-stream_example :
    stream sim sent (send_in_loop sim echo (1 ∷ 2 ∷ 3 ∷ 4 ∷ 5 ∷ []) (state ([], []))).1
    ≡ stream sim sent (state ([], [])) ++ 1 ∷ 2 ∷ 3 ∷ 4 ∷ 5 ∷ []
send_in_loop-stream_example =
    send_in_loop-stream sim sim-RingLaws sent sim-WriteLaws echo (1 ∷ 2 ∷ 3 ∷ 4 ∷ 5 ∷ [])
      (state ([], [])) send_stays_open

-- Four bytes wait in two parts, and the kernel takes the first part and one byte of the second.
write_stays_open : (handle_write sim echo 7 (state (1 ∷ 2 ∷ [], 3 ∷ 4 ∷ []))).0 ≡ false
unfolding handle_write write_end
write_stays_open = refl

handle_write-stream_example :
    stream sim sent (handle_write sim echo 7 (state (1 ∷ 2 ∷ [], 3 ∷ 4 ∷ []))).1
    ≡ stream sim sent (state (1 ∷ 2 ∷ [], 3 ∷ 4 ∷ []))
handle_write-stream_example =
    handle_write-stream sim sim-RingLaws sent sim-WriteLaws echo 7 (state (1 ∷ 2 ∷ [], 3 ∷ 4 ∷ []))
      write_stays_open

handler_protocol-Runs_example :
    Runs sim echo raw fresh []
      (state ([], []))
      (handler_protocol sim echo raw fresh (state ([], [])))
handler_protocol-Runs_example = handler_protocol-Runs sim echo raw fresh (state ([], []))

handle_close_lem_example :
    let t = handle_close sim echo 7 (state ([], [])) in
    (t.conn.connected ≡ false)
    × (t.loop.sockets ≡ delete_socket 7 (some ((7, 0) ∷ [])))
    × (t.loop.conn_count ≡ decr (pos 1))
handle_close_lem_example = handle_close_lem sim echo 7 (state ([], [])) refl

handle_close_silences_example :
    let t = handle_close sim echo 7 (state ([], [])) in
    (handle_close sim echo 7 t ≡ t)
    × (run_send sim echo raw (6 ∷ []) (some 1) t ≡ t)
    × (send sim (6 ∷ []) (some 1) t ≡ (some err_connection_closed, t))
    × (close sim t ≡ (some err_connection_closed, t))
    × (close_timeout_conn sim t ≡ t)
handle_close_silences_example =
    handle_close_silences sim echo raw 7 7 (6 ∷ []) (some 1) (state ([], []))

-- The clock stands at 5 ns, and the last activity was at 1 ns.
close_timeout_conn_lem_example :
    ((1 + 2 < 5 + second)
      × ((close_timeout_conn sim (state ([], []))).loop.task_queue_w ≡ [] ++ close_task 0 ∷ []))
    ⊎ ((delay : ℕ) × (close_timeout_conn sim (state ([], [])) ≡ arm sim delay (state ([], [])))
        × (0 < delay)
        × (5 + delay ≡ 0 * second + 2)
        × (5 + delay ≤ 1 + 2))
close_timeout_conn_lem_example = close_timeout_conn_lem sim (state ([], [])) 1 refl refl

-- Two bytes are echoed; then three more are sent, of which one finds room, and the timer fires.
abbrev stimuli : List (Stimulus sim)
stimuli = on_event 1 ∷ on_send (1 ∷ 2 ∷ 3 ∷ []) none ∷ on_timer ∷ []

lives_on : (live sim echo raw stimuli (state ([], []))).conn.connected ≡ true
unfolding live handle_event Poller.has handle_read protocol_loop call_un_packet Default.un_packet
    perform_all Default.packet send_in_loop run_send close_timeout_conn EventLoop.enable_read_write
    Epoll.enable_read_write close
lives_on = refl

live-IsWatched_example : IsWatched sim watched (live sim echo raw stimuli (state ([], [])))
live-IsWatched_example =
    live-IsWatched sim sim-RingLaws watched sim-EpollLaws echo raw stimuli (state ([], [])) refl
      lives_on
