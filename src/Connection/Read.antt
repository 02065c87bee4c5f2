-- ===== src/Connection/Read.antt =====
-- connection.go: `handleRead` and `handlerProtocol`. The loop of the latter runs on fuel, one more than
-- the length of its buffer, which is enough since each message takes bytes from the buffer.
pub mod Termination
pub mod Frame
pub mod Reference
use gev.Base.{
  ℕ, zero, suc, Bool, true, false, not, ◌||◌, ◌++◌, Option, none, some, [], if◌then◌else◌, is_nil,
  is_some,
}
use gev.Deps.{Deps, Bytes, Errno, eagain, is_eagain}
use gev.EventLoop.{default_packet_size}
use gev.Connection.{Connection, State, Handler, Unpacked}
use gev.Connection.Close.{perform_all, run_callback, handle_close}
use gev.Connection.Send.{send_in_loop}
use gev.Protocol.{Protocol, is_message}

-- The buffer that `handlerProtocol` is given: `c.buffer` or `c.inBuffer`.
pub data Source : Type 0 where
  fresh pending : Source

module _ (D : Deps) where
  abbrev pub ring_of : Source → Connection D → D.Ring
  ring_of fresh c = c.buffer
  ring_of pending c = c.in_buffer

  abbrev pub set_ring : Source → D.Ring → Connection D → Connection D
  set_ring fresh r c = record c { buffer = r }
  set_ring pending r c = record c { in_buffer = r }

  -- What `UnPacket` does to the state.
  unfoldable pub after_un_packet : Source → Unpacked D → State D → State D
  after_un_packet source u s =
      let l = s.loop in
      perform_all D u.calls (record s {
        conn = set_ring source u.rest s.conn;
        loop = record l { user_buffer = u.user_buffer };
        user = u.user;
      })

  unfoldable pub call_un_packet : Protocol D → Source → State D → Unpacked D
  call_un_packet P source s = P.un_packet s.conn s.user s.loop.user_buffer (ring_of source s.conn)

  abbrev pub reply_bytes : Protocol D → Connection D → Option D.Data → Bytes
  reply_bytes P c none = []
  reply_bytes P c (some value) = P.packet c value

  -- `OnMessage`, and the packet of its answer.
  unfoldable pub on_message : Handler D → Protocol D → Unpacked D → State D → Bytes × State D
  on_message H P u s =
      let (user, calls, out) = H.on_message s.conn u.ctx u.received s.user in
      let s1 = perform_all D calls (record s { user = user }) in (reply_bytes P s1.conn out, s1)

  -- The loop from its test on.
  unfoldable pub protocol_loop :
      ℕ → Handler D → Protocol D → Source → Bytes → State D → Bytes × State D
  unfolding after_un_packet on_message
  protocol_loop zero H P source tmp s = (tmp, s)
  protocol_loop (suc fuel) H P source tmp s =
      let u = call_un_packet P source s in
      let s1 = after_un_packet source u s in
      let (reply, s2) = on_message H P u s1 in
      let rest = protocol_loop fuel H P source (tmp ++ reply) s2 in
      if is_message u then rest else (tmp, s1)

  unfoldable pub handler_protocol : Handler D → Protocol D → Source → State D → Bytes × State D
  handler_protocol H P source s =
      protocol_loop (suc (D.ring_length (ring_of source s.conn))) H P source [] s

  -- What is left of the bytes just read goes to `inBuffer`.
  unfoldable pub keep_rest : State D → State D
  keep_rest s =
      let c = s.conn in
      let (first, end) = D.peek_all c.buffer in
      if not (D.is_empty c.buffer)
      then record s { conn = record c { in_buffer = D.ring_write first c.in_buffer } }
      else s

  -- The two ways to hand on what was read; the bytes are the answers.
  unfoldable pub deliver : Handler D → Protocol D → Bytes → State D → Bytes × State D
  unfolding handler_protocol keep_rest
  deliver H P bts s =
      let c = s.conn in
      if D.is_empty c.in_buffer
      then (let s1 = record s { conn = record c { buffer = D.with_data bts c.buffer } } in
          let (tmp, s2) = handler_protocol H P fresh s1 in (tmp, keep_rest s2))
      else let s1 = record s { conn = record c { in_buffer = D.ring_write bts c.in_buffer } } in
        handler_protocol H P pending s1

  abbrev pub is_again : Option Errno → Bool
  is_again none = false
  is_again (some e) = is_eagain e

  -- What follows a read of nothing, or one that failed.
  unfoldable pub read_failed : Handler D → ℕ → Option Errno → State D → Bool × State D
  read_failed H fd e s = if is_again e then (false, s) else (true, handle_close D H fd s)

  unfoldable pub send_answers : Handler D → Bytes × State D → Bool × State D
  send_answers H (tmp, s) = if not (is_nil tmp) then send_in_loop D H tmp s else (false, s)

  -- The result is `closed`.
  unfoldable pub handle_read : Handler D → Protocol D → ℕ → State D → Bool × State D
  unfolding deliver read_failed send_answers
  handle_read H P fd s =
      let (bts, e, os) = D.read s.conn.fd default_packet_size s.os in
      let s1 = record s { os = os } in
      if is_nil bts || is_some e then read_failed H fd e s1 else send_answers H (deliver H P bts s1)
