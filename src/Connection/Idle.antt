-- ===== src/Connection/Idle.antt =====
-- connection.go: `NewConnection`, and the timer that closes an idle connection.
pub mod Deadline
use Prim.Native.String.{String}
use gev.Base.{ℕ, ◌+◌, ◌-◌, ◌*◌, ◌/◌, Bool, true, false, Option, none, some, if◌then◌else◌, ltb, leb}
use gev.Context
use gev.Deps.{Deps, Sockaddr}
use gev.EventLoop.{EventLoop}
use gev.Connection.{Connection, State, Task, sock_addr_to_string}
use gev.Connection.Close.{close}
use gev.Connection.Event.{second}

module _ (D : Deps) where
  open D use {Os}

  -- `AfterFunc` with `closeTimeoutConn()`, and the store of the timer.
  unfoldable pub arm : ℕ → State D → State D
  arm delay s =
      let c = s.conn in
      let (t, os) = D.after_func delay s.self s.os in
      record s { conn = record c { timer = some t }; os = os }

  -- `now - active >= idle` and the delay `idle - (now - active)`, with the terms moved so that no
  -- difference is negative where the source's are not.
  unfoldable pub close_timeout_conn : State D → State D
  unfolding arm
  close_timeout_conn s =
      let c = s.conn in
      let now = D.now s.os in
      let active = c.active_time * second in
      if leb (active + c.idle_time) now
      then (close D s).1
      else if c.connected
      then arm (active + c.idle_time - now) s
      else s

  fresh_connection : ℕ → String → ℕ → D.Ring → D.Ring → Connection D
  fresh_connection fd peer idle out_ring in_ring = record {
    out_buffer_len = 0;
    in_buffer_len = 0;
    active_time = 0;
    fd = fd;
    connected = true;
    buffer = D.new_ring;
    out_buffer = out_ring;
    in_buffer = in_ring;
    peer_addr = peer;
    ctx = none;
    key_values = record { kv = none };
    idle_time = idle;
    timer = none;
  }

  -- The new connection has the number `self`.
  unfoldable pub new_connection : ℕ → ℕ → EventLoop ℕ (Task D) → String → ℕ → D.User → Os → State D
  unfolding fresh_connection arm
  new_connection self fd loop peer idle user os =
      let (out_ring, os1) = D.get_from_pool os in
      let (in_ring, os2) = D.get_from_pool os1 in
      let c = fresh_connection fd peer idle out_ring in_ring in
      let s : State D = record { self = self; conn = c; loop = loop; os = os2; user = user } in
      let started : State D = record s { conn = record c { active_time = D.now os2 / second } } in
      if ltb 0 idle then arm idle started else s
