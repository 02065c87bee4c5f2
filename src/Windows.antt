-- ===== src/Windows.antt =====
-- server_std.go: the server for Windows, which reads and writes each connection in goroutines of its own
-- instead of a poller. `read` and `write` are those of `net.Conn`, with `none` for no error and
-- `some true` for `io.EOF`. A callback gives the user's new state and the calls that it makes.
pub mod Rounds
pub mod Service
pub mod Stream
pub mod Fuel
pub mod Closers
pub mod Goroutines
use Prim.Native.String.{String}
use gev.Context
use gev.Base.{
  ℕ, zero, suc, ◌+◌, ◌-◌, ◌*◌, ◌/◌, Bool, true, false, not, ◌&&◌, ◌||◌, List, [], ◌∷◌, ◌++◌, Option,
  none, some, if◌then◌else◌, ltb, leb, ◌==◌, length, drop, is_nil, is_some, replicate, ℤ, pos,
  negsuc,
}
use gev.Context.{KeyValueContext}
use gev.Deps.{Deps, Bytes}

-- A function that `Send` queues: the data, and the number of the function given by `SendInLoop`.
pub record SendTask (D : Deps) : Type 0 where
  pub value : D.Data
  pub finish : Option ℕ

pub record Connection (D : Deps) : Type 0 where
  pub connected : Bool
  -- The channel `dying` is closed.
  pub dying : Bool
  pub user_buffer : Bytes
  pub buffer : D.Ring
  pub out_buffer : D.Ring
  pub in_buffer : D.Ring
  pub out_buffer_len : ℕ
  pub in_buffer_len : ℕ
  pub ctx : Option D.Value
  pub key_values : KeyValueContext D.Value
  pub task_queue_w : List (SendTask D)
  pub task_queue_r : List (SendTask D)
  pub idle_time : ℕ
  pub active_time : ℕ
  pub timer : Option D.Timer

pub record State (D : Deps) : Type 0 where
  pub self : ℕ
  pub conn : Connection D
  pub os : D.Os
  pub user : D.User

-- What a callback may do with its connection.
pub data Call (D : Deps) : Type 0 where
  call_send : D.Data → Option ℕ → Call D
  call_close : Call D
  call_set_context : Option D.Value → Call D
  call_set : String → D.Value → Call D
  call_delete : String → Call D

-- `net.Conn`, the protocol and the callbacks. `UnPacket` gives the context, the data and the rest.
pub record Parts (D : Deps) : Type 0 where
  pub read : ℕ → ℕ → D.Os → Bytes × Option Bool × D.Os
  pub write : ℕ → Bytes → D.Os → ℕ × Bool × D.Os
  pub close_conn : ℕ → D.Os → D.Os
  pub un_packet : D.Ring → Option D.Ctx × Bytes × D.Ring
  pub packet : D.Data → Bytes
  pub on_message : Option D.Ctx → Bytes → D.User → D.User × List (Call D) × Option D.Data
  -- Its calls of `Send` and `Close` find the connection closed; those on the context are left out.
  pub on_close : D.User → D.User
  pub on_finish : ℕ → D.Data → D.User → D.User × List (Call D)

abbrev pub second : ℕ
second = 1000000000

module _ (D : Deps) (S : Parts D) where
  open D use {Os}

  unfoldable pub new_connection : ℕ → ℕ → D.User → Os → State D
  new_connection self idle user os =
      let (out_ring, os1) = D.get_from_pool os in
      let (in_ring, os2) = D.get_from_pool os1 in
      let c : Connection D = record {
        connected = true;
        dying = false;
        user_buffer = replicate 4096 0;
        buffer = D.new_ring;
        out_buffer = out_ring;
        in_buffer = in_ring;
        out_buffer_len = 0;
        in_buffer_len = 0;
        ctx = none;
        key_values = record { kv = none };
        task_queue_w = [];
        task_queue_r = [];
        idle_time = idle;
        active_time = if ltb 0 idle then D.now os2 / second else 0;
        timer = none;
      } in
      let (t, os3) = D.after_func idle self os2 in
      if ltb 0 idle
      then record { self = self; conn = record c { timer = some t }; os = os3; user = user }
      else record { self = self; conn = c; os = os2; user = user }

  abbrev stop_if : Option D.Timer → Os → Os
  stop_if none os = os
  stop_if (some t) os = D.stop_timer t os

  -- `Send`: `true` is `ErrConnectionClosed`.
  unfoldable pub send : D.Data → Option ℕ → State D → Bool × State D
  send value finish s =
      let c = s.conn in
      let t : SendTask D = record { value = value; finish = finish } in
      if not c.connected
      then (true, s)
      else (false, record s { conn = record c { task_queue_w = c.task_queue_w ++ t ∷ [] } })

  unfoldable pub close : State D → State D
  close s =
      let c = s.conn in
      if c.connected
      then record s {
        conn = record c { dying = true; connected = false };
        user = S.on_close s.user;
        os = S.close_conn s.self (stop_if c.timer s.os);
      }
      else s

  -- `ShutdownWrite` closes both directions.
  unfoldable pub shutdown_write : State D → State D
  unfolding close
  shutdown_write s = close s

  abbrev pub with_values : KeyValueContext D.Value → State D → State D
  with_values kv s = let c = s.conn in record s { conn = record c { key_values = kv } }

  -- One call of a callback.
  unfoldable pub perform : Call D → State D → State D
  unfolding close send
  perform (call_send value finish) s = (send value finish s).1
  perform call_close s = close s
  perform (call_set_context v) s = let c = s.conn in record s { conn = record c { ctx = v } }
  perform (call_set k v) s = with_values (Context.set k v s.conn.key_values) s
  perform (call_delete k) s = with_values (Context.delete k s.conn.key_values) s

  unfoldable pub perform_all : List (Call D) → State D → State D
  unfolding perform
  perform_all [] s = s
  perform_all (x ∷ xs) s = perform_all xs (perform x s)

  -- `UserBuffer`, `Context`, `SetContext`, `Connected`, `ReadBufferLength` and `WriteBufferLength`.
  abbrev pub user_buffer : State D → Bytes
  user_buffer s = s.conn.user_buffer

  abbrev pub context : State D → Option D.Value
  context s = s.conn.ctx

  abbrev pub set_context : Option D.Value → State D → State D
  set_context v s = let c = s.conn in record s { conn = record c { ctx = v } }

  abbrev pub is_connected : State D → Bool
  is_connected s = s.conn.connected

  abbrev pub read_buffer_length : State D → ℕ
  read_buffer_length s = s.conn.in_buffer_len

  abbrev pub write_buffer_length : State D → ℕ
  write_buffer_length s = s.conn.out_buffer_len

  unfoldable pub close_timeout_conn : State D → State D
  unfolding close
  close_timeout_conn s =
      let c = s.conn in
      let now = D.now s.os in
      let active = c.active_time * second in
      let (t, os) = D.after_func (active + c.idle_time - now) s.self s.os in
      if leb (active + c.idle_time) now
      then close s
      else record s { conn = record c { timer = some t }; os = os }

  abbrev pub write_out : Bytes → State D → State D
  write_out b s =
      let c = s.conn in record s { conn = record c { out_buffer = D.ring_write b c.out_buffer } }

  -- The tests on the count `n` of the write.
  unfoldable pub keep_unsent : ℕ → Bytes → State D → State D
  keep_unsent n b s =
      if n == 0 then write_out b s else if ltb n (length b) then write_out (drop n b) s else s

  -- The result is `closed`.
  unfoldable pub send_in_loop : Bytes → State D → Bool × State D
  unfolding close keep_unsent
  send_in_loop b s =
      if not (D.is_empty s.conn.out_buffer)
      then (false, write_out b s)
      else let (n, failed, os) = S.write s.self b s.os in
        let s1 = record s { os = os } in
        if failed then (true, close s1) else (false, keep_unsent n b s1)

  abbrev finish_with : Option ℕ → D.Data → State D → State D
  finish_with none value s = s
  finish_with (some f) value s =
      let (user, calls) = S.on_finish f value s.user in perform_all calls (record s { user = user })

  unfoldable pub run_send : SendTask D → State D → State D
  unfolding send_in_loop
  run_send t s =
      if s.conn.connected
      then finish_with t.finish t.value (send_in_loop (S.packet t.value) s).1
      else s

  unfoldable pub run_all : List (SendTask D) → State D → State D
  run_all [] s = s
  run_all (t ∷ ts) s = run_all ts (run_send t s)

  unfoldable pub do_pending_func : State D → State D
  unfolding run_all
  do_pending_func s =
      let c = s.conn in
      let swapped : State D = record s {
        conn = record c { task_queue_w = c.task_queue_r; task_queue_r = c.task_queue_w };
      } in
      let t = run_all c.task_queue_w swapped in
      let d = t.conn in record t { conn = record d { task_queue_r = [] } }

  abbrev reply_bytes : Option D.Data → Bytes
  reply_bytes none = []
  reply_bytes (some v) = S.packet v

  -- The loop of `handlerProtocol`, on fuel.
  unfoldable pub handler_protocol : ℕ → Bytes → State D → Bytes × State D
  handler_protocol zero tmp s = (tmp, s)
  handler_protocol (suc fuel) tmp s =
      let c = s.conn in
      let (ctx, received, r) = S.un_packet c.in_buffer in
      let s1 = record s { conn = record c { in_buffer = r } } in
      let (user, calls, out) = S.on_message ctx received s.user in
      let s2 = perform_all calls (record s1 { user = user }) in
      let rest = handler_protocol fuel (tmp ++ reply_bytes out) s2 in
      if is_some ctx || not (is_nil received) then rest else (tmp, s1)
