-- ===== src/Connection/Send.antt =====
-- connection.go: `sendInLoop`, and the function that `Send` queues.
pub mod Stream
use gev.Base.{
  ℕ, Bool, true, false, not, ◌&&◌, Option, none, some, if◌then◌else◌, ltb, length, drop, ◌==◌,
}
use gev.Deps.{Deps, Bytes, Errno, is_eagain}
use gev.EventLoop
use gev.Connection.{State, Handler}
use gev.Connection.Close.{run_callback, handle_close}
use gev.Protocol.{Protocol}

-- `err != nil && err != unix.EAGAIN`.
abbrev pub is_fatal : Option Errno → Bool
is_fatal none = false
is_fatal (some e) = not (is_eagain e)

module _ (D : Deps) where
  unfoldable pub write_out_buffer : Bytes → State D → State D
  write_out_buffer bts s =
      let c = s.conn in record s { conn = record c { out_buffer = D.ring_write bts c.out_buffer } }

  -- The tests on the count `n` of the write.
  unfoldable pub keep_unsent : ℕ → Bytes → State D → State D
  unfolding write_out_buffer
  keep_unsent n bts s =
      if n == 0
      then write_out_buffer bts s
      else if ltb n (length bts)
      then write_out_buffer (drop n bts) s
      else s

  unfoldable pub watch_writable : State D → State D
  watch_writable s =
      if not (D.is_empty s.conn.out_buffer)
      then record s { os = (EventLoop.enable_read_write D s.conn.fd s.loop s.os).1 }
      else s

  -- The result is `closed`.
  unfoldable pub send_in_loop : Handler D → Bytes → State D → Bool × State D
  unfolding write_out_buffer keep_unsent watch_writable
  send_in_loop H bts s =
      if not (D.is_empty s.conn.out_buffer)
      then (false, write_out_buffer bts s)
      else let (n, e, os) = D.write s.conn.fd bts s.os in
        let s1 = record s { os = os } in
        if is_fatal e
        then (true, handle_close D H s.conn.fd s1)
        else (false, watch_writable (keep_unsent n bts s1))

  abbrev pub finish_with : Handler D → Option ℕ → D.Data → State D → State D
  finish_with H none value s = s
  finish_with H (some f) value s = run_callback D (H.on_finish f value s.user) s

  -- The function that `Send` queues.
  unfoldable pub run_send : Handler D → Protocol D → D.Data → Option ℕ → State D → State D
  run_send H P value finish s =
      if s.conn.connected
      then finish_with H finish value (send_in_loop H (P.packet s.conn value) s).1
      else s
