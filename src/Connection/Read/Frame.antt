-- ===== src/Connection/Read/Frame.antt =====
-- connection.go: what the loop of `handlerProtocol` leaves alone.
use gev.Base.{ℕ, zero, suc, ◌≡◌, refl, true, false, ◌++◌, arith, inl, inr, Bool-cases}
use gev.Deps.{Deps, Bytes}
use gev.Connection.{State, Handler, Unpacked}
use gev.Connection.Close.Once.{perform_all-Keeps}
use gev.Connection.Read.{
  Source, fresh, pending, ring_of, after_un_packet, call_un_packet, on_message, protocol_loop,
  handler_protocol,
}
use gev.Protocol.{Protocol, is_message}

module _ (D : Deps) where
  pub after_un_packet-ring :
      (source : Source) (u : Unpacked D) (s : State D)
      → ring_of D source (after_un_packet D source u s).conn ≡ u.rest
  unfolding after_un_packet
  after_un_packet-ring fresh u s = (perform_all-Keeps D u.calls _).keep_buffer
  after_un_packet-ring pending u s = (perform_all-Keeps D u.calls _).keep_in_buffer

  pub on_message-ring :
      (H : Handler D) (P : Protocol D) (source : Source) (u : Unpacked D) (s : State D)
      → ring_of D source (on_message D H P u s).1.conn ≡ ring_of D source s.conn
  unfolding on_message
  on_message-ring H P fresh u s = (perform_all-Keeps D _ _).keep_buffer
  on_message-ring H P pending u s = (perform_all-Keeps D _ _).keep_in_buffer

  -- The descriptor, the flag and the write buffer, which the rest of `handleRead` and `HandleEvent` use.
  pub record Holds (s t : State D) : Type 0 where
    pub hold_fd : t.conn.fd ≡ s.conn.fd
    pub hold_connected : t.conn.connected ≡ s.conn.connected
    pub hold_out_buffer : t.conn.out_buffer ≡ s.conn.out_buffer
    pub hold_poll : t.loop.poll ≡ s.loop.poll
    pub hold_sockets : t.loop.sockets ≡ s.loop.sockets
    pub hold_count : t.loop.conn_count ≡ s.loop.conn_count

  after_un_packet-Holds :
      (source : Source) (u : Unpacked D) (s : State D) → Holds s (after_un_packet D source u s)
  unfolding after_un_packet
  after_un_packet-Holds fresh u s =
      let k = perform_all-Keeps D u.calls _ in
      record {
        hold_fd = k.keep_fd;
        hold_connected = k.keep_connected;
        hold_out_buffer = k.keep_out_buffer;
        hold_poll = k.keep_poll;
        hold_sockets = k.keep_sockets;
        hold_count = k.keep_count;
      }
  after_un_packet-Holds pending u s =
      let k = perform_all-Keeps D u.calls _ in
      record {
        hold_fd = k.keep_fd;
        hold_connected = k.keep_connected;
        hold_out_buffer = k.keep_out_buffer;
        hold_poll = k.keep_poll;
        hold_sockets = k.keep_sockets;
        hold_count = k.keep_count;
      }

  on_message-Holds :
      (H : Handler D) (P : Protocol D) (u : Unpacked D) (s : State D)
      → Holds s (on_message D H P u s).1
  unfolding on_message
  on_message-Holds H P u s =
      let k = perform_all-Keeps D _ _ in
      record {
        hold_fd = k.keep_fd;
        hold_connected = k.keep_connected;
        hold_out_buffer = k.keep_out_buffer;
        hold_poll = k.keep_poll;
        hold_sockets = k.keep_sockets;
        hold_count = k.keep_count;
      }

  Holds-trans : {s t u : State D} → Holds s t → Holds t u → Holds s u
  Holds-trans h k = ground arith

  protocol_loop-Holds :
      (fuel : ℕ) (H : Handler D) (P : Protocol D) (source : Source) (tmp : Bytes) (s : State D)
      → Holds s (protocol_loop D fuel H P source tmp s).1
  unfolding protocol_loop
  protocol_loop-Holds zero H P source tmp s = ground arith
  protocol_loop-Holds (suc fuel) H P source tmp s =
      let u = call_un_packet D P source s in
      let s1 = after_un_packet D source u s in
      let m = on_message D H P u s1 in
      let first = after_un_packet-Holds source u s in
      elim (Bool-cases (is_message u)) [
        | inl more ↦
            rw (more, protocol_loop)
              (Holds-trans first (
                Holds-trans (on_message-Holds H P u s1)
                  (protocol_loop-Holds fuel H P source (tmp ++ m.0) m.1)))
        | inr done ↦ rw (done, protocol_loop) first
      ]

  pub handler_protocol-Holds :
      (H : Handler D) (P : Protocol D) (source : Source) (s : State D)
      → Holds s (handler_protocol D H P source s).1
  unfolding handler_protocol
  handler_protocol-Holds H P source s = protocol_loop-Holds _ H P source _ s

module _ (D : Deps) (H : Handler D) (P : Protocol D) where
  -- A round of the loop that finds a message, and one that finds none.
  pub loop_more :
      (fuel : ℕ) (source : Source) (tmp : Bytes) (s : State D)
      → let u = call_un_packet D P source s in
        let m = on_message D H P u (after_un_packet D source u s) in
        is_message u ≡ true
        → protocol_loop D (suc fuel) H P source tmp s
          ≡ protocol_loop D fuel H P source (tmp ++ m.0) m.1
  unfolding protocol_loop
  loop_more fuel source tmp s more = rw (more, protocol_loop) refl

  pub loop_done :
      (fuel : ℕ) (source : Source) (tmp : Bytes) (s : State D)
      → let u = call_un_packet D P source s in
        is_message u ≡ false
        → protocol_loop D (suc fuel) H P source tmp s ≡ (tmp, after_un_packet D source u s)
  unfolding protocol_loop
  loop_done fuel source tmp s done = rw (done, protocol_loop) refl
