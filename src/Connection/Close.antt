-- ===== src/Connection/Close.antt =====
-- connection.go: what the public methods queue in the loop, and `handleClose`. The calls of a callback
-- are performed here too, since `handleClose` makes one of them.
pub mod Once
use gev.Base.{ℕ, false, not, List, [], ◌∷◌, Option, none, some, if◌then◌else◌}
use gev.Context
use gev.Deps.{Deps, Errno}
use gev.EventLoop
use gev.EventLoop.{EventLoop}
use gev.Connection.{
  Connection, State, Handler, Task, send_task, close_task, Call, call_send, call_close,
  call_shutdown_write, call_set_context, call_set, call_delete, call_other,
}

pub data SendError : Type 0 where
  err_connection_closed : SendError

module _ (D : Deps) where
  open D use {Os, Data}

  abbrev pub with_conn : Connection D → State D → State D
  with_conn c s = record s { conn = c }

  -- `c.loop.QueueInLoop`.
  unfoldable pub queue : Task D → State D → State D
  queue t s =
      let (l, os) = EventLoop.queue_in_loop D t s.loop s.os in record s { loop = l; os = os }

  unfoldable pub send : Data → Option ℕ → State D → Option SendError × State D
  unfolding queue
  send value finish s =
      if not s.conn.connected
      then (some err_connection_closed, s)
      else (none, queue (send_task s.self value finish) s)

  unfoldable pub close : State D → Option SendError × State D
  unfolding queue
  close s =
      if not s.conn.connected
      then (some err_connection_closed, s)
      else (none, queue (close_task s.self) s)

  unfoldable pub shutdown_write : State D → Option Errno × State D
  shutdown_write s = let (e, os) = D.shutdown_wr s.conn.fd s.os in (e, record s { os = os })

  unfoldable pub set_context : Option D.Value → State D → State D
  set_context v s = let c = s.conn in record s { conn = record c { ctx = v } }

  unfoldable pub perform : Call D → State D → State D
  unfolding send close shutdown_write set_context queue
  perform (call_send value finish) s = (send value finish s).1
  perform call_close s = (close s).1
  perform call_shutdown_write s = (shutdown_write s).1
  perform (call_set_context v) s = set_context v s
  perform (call_set k v) s =
      let c = s.conn in record s { conn = record c { key_values = Context.set k v c.key_values } }
  perform (call_delete k) s =
      let c = s.conn in record s { conn = record c { key_values = Context.delete k c.key_values } }
  perform (call_other t) s = queue t s

  unfoldable pub perform_all : List (Call D) → State D → State D
  perform_all [] s = s
  perform_all (c ∷ cs) s = perform_all cs (perform c s)

  -- A callback gives the user's new state and its calls.
  unfoldable pub run_callback : D.User × List (Call D) → State D → State D
  run_callback (user, calls) s = perform_all calls (record s { user = user })

  abbrev stop_if : Option D.Timer → Os → Os
  stop_if none os = os
  stop_if (some t) os = D.stop_timer t os

  -- The part of `handleClose` behind `OnClose`.
  unfoldable pub release : ℕ → State D → State D
  release fd s =
      let os1 = (D.close_fd fd s.os).1 in
      let os2 = D.put_in_pool s.conn.out_buffer (D.put_in_pool s.conn.in_buffer os1) in
      record s { os = stop_if s.conn.timer os2 }

  -- The part of `handleClose` before `OnClose`.
  unfoldable pub detach : ℕ → State D → State D
  detach fd s =
      let c = s.conn in
      let (l, os) = EventLoop.delete_fd_in_loop D fd s.loop s.os in
      record s { conn = record c { connected = false }; loop = l; os = os }

  unfoldable pub handle_close : Handler D → ℕ → State D → State D
  unfolding run_callback
  handle_close H fd s =
      let s1 = detach fd s in
      if s.conn.connected then release fd (run_callback (H.on_close s1.conn s1.user) s1) else s
