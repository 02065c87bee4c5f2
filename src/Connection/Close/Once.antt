-- ===== src/Connection/Close/Once.antt =====
-- connection.go: what `handleClose` changes, and what the calls of a callback leave alone.
use gev.Base.{ℕ, ◌≡◌, true, false, List, [], ◌∷◌, arith, decr}
use gev.Deps.{Deps}
use gev.EventLoop
use gev.EventLoop.{delete_socket}
use gev.Connection.{
  State, Handler, Call, call_send, call_close, call_shutdown_write, call_set_context, call_set,
  call_delete, call_other,
}
use gev.Connection.Close.{handle_close, perform, perform_all, run_callback, detach, release}

-- What a callback's calls leave alone: the descriptor, the flag and the three buffers.
pub record Keeps (D : Deps) (s t : State D) : Type 0 where
  pub keep_fd : t.conn.fd ≡ s.conn.fd
  pub keep_connected : t.conn.connected ≡ s.conn.connected
  pub keep_buffer : t.conn.buffer ≡ s.conn.buffer
  pub keep_out_buffer : t.conn.out_buffer ≡ s.conn.out_buffer
  pub keep_in_buffer : t.conn.in_buffer ≡ s.conn.in_buffer
  pub keep_sockets : t.loop.sockets ≡ s.loop.sockets
  pub keep_count : t.loop.conn_count ≡ s.loop.conn_count
  pub keep_poll : t.loop.poll ≡ s.loop.poll
  pub keep_running : t.loop.task_queue_r ≡ s.loop.task_queue_r
  pub keep_timer : t.conn.timer ≡ s.conn.timer
  pub keep_self : t.self ≡ s.self

module _ (D : Deps) where
  pub perform-Keeps : (c : Call D) (s : State D) → Keeps D s (perform D c s)
  unfolding perform EventLoop.queue_in_loop
  perform-Keeps (call_send v f) s = ground arith
  perform-Keeps call_close s = ground arith
  perform-Keeps call_shutdown_write s = ground arith
  perform-Keeps (call_set_context v) s = ground arith
  perform-Keeps (call_set k v) s = ground arith
  perform-Keeps (call_delete k) s = ground arith
  perform-Keeps (call_other t) s = ground arith

  pub perform_all-Keeps : (cs : List (Call D)) (s : State D) → Keeps D s (perform_all D cs s)
  unfolding perform_all
  perform_all-Keeps [] s = ground arith
  perform_all-Keeps (c ∷ cs) s =
      let k1 = perform-Keeps c s in let k2 = perform_all-Keeps cs (perform D c s) in ground arith

  pub run_callback-Keeps :
      (r : D.User × List (Call D)) (s : State D) → Keeps D s (run_callback D r s)
  unfolding run_callback
  run_callback-Keeps (user, calls) s =
      let k = perform_all-Keeps calls (record s { user = user }) in ground arith

  -- `handleClose` of a connected connection marks it closed, takes its descriptor out of the loop's
  -- sockets and takes one off the loop's count of connections, whatever `OnClose` calls.
  pub handle_close_lem :
      (H : Handler D) (fd : ℕ) (s : State D)
      → s.conn.connected ≡ true
      → let t = handle_close D H fd s in
        (t.conn.connected ≡ false)
        × (t.loop.sockets ≡ delete_socket fd s.loop.sockets)
        × (t.loop.conn_count ≡ decr s.loop.conn_count)
  unfolding handle_close detach release EventLoop.delete_fd_in_loop
  handle_close_lem H fd s up =
      let d = detach D fd s in
      let k = run_callback-Keeps (H.on_close d.conn d.user) d in
      rw (up, handle_close) (ground arith)
