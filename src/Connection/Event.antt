-- ===== src/Connection/Event.antt =====
-- connection.go: `handleWrite` and `HandleEvent`.
pub mod Flow
pub mod Watch
pub mod Closing
pub mod WatchRead
pub mod WatchWrite
pub mod Watched
pub mod Lengths
use gev.Base.{
  ℕ, ◌/◌, Bool, true, false, not, ◌&&◌, Option, none, some, if◌then◌else◌, ltb, length, ◌==◌,
  is_nil,
}
use gev.Deps.{Deps, Bytes, Errno, is_eagain}
use gev.EventLoop
use gev.Poller.{event_read, event_write, event_err, has}
use gev.Connection.{Connection, State, Handler}
use gev.Connection.Close.{handle_close}
use gev.Connection.Read.{handle_read}
use gev.Protocol.{Protocol}

abbrev pub second : ℕ
second = 1000000000

module _ (D : Deps) where
  abbrev pub retrieve_out : ℕ → State D → State D
  retrieve_out n s =
      let c = s.conn in record s { conn = record c { out_buffer = D.retrieve n c.out_buffer } }

  -- The end of `handleWrite`: an error of `EnableRead` is only logged.
  unfoldable pub watch_readable : ℕ → State D → State D
  watch_readable fd s =
      if D.is_empty s.conn.out_buffer
      then record s { os = (EventLoop.enable_read D fd s.loop s.os).1 }
      else s

  -- What follows a failed write.
  unfoldable pub write_failed : Handler D → ℕ → Errno → State D → Bool × State D
  write_failed H fd e s = if is_eagain e then (false, s) else (true, handle_close D H fd s)

  -- The second write, of the part of the ring behind its wrap.
  unfoldable pub write_end : Handler D → ℕ → Bytes → State D → Bool × State D
  unfolding write_failed watch_readable
  write_end H fd end s =
      let (n, failed, os) = D.write s.conn.fd end s.os in
      let s1 = record s { os = os } in
      elim failed [
        | some e ↦ write_failed H fd e s1
        | none ↦ (false, watch_readable fd (retrieve_out n s1))
      ]

  unfoldable pub handle_write : Handler D → ℕ → State D → Bool × State D
  unfolding write_end write_failed watch_readable
  handle_write H fd s =
      let (first, end) = D.peek_all s.conn.out_buffer in
      let (n, failed, os) = D.write s.conn.fd first s.os in
      let s1 = record s { os = os } in
      let s2 = retrieve_out n s1 in
      elim failed [
        | some e ↦ write_failed H fd e s1
        | none ↦
            if n == length first && not (is_nil end)
            then write_end H fd end s2
            else (false, watch_readable fd s2)
      ]

  unfoldable pub touch : State D → State D
  touch s =
      let c = s.conn in
      if ltb 0 c.idle_time
      then record s { conn = record c { active_time = D.now s.os / second } }
      else s

  abbrev pub reset_out : State D → State D
  reset_out s =
      let c = s.conn in
      if D.is_empty c.out_buffer
      then record s { conn = record c { out_buffer = D.reset c.out_buffer } }
      else s

  abbrev pub reset_in : State D → State D
  reset_in s =
      let c = s.conn in
      if D.is_empty c.in_buffer
      then record s { conn = record c { in_buffer = D.reset c.in_buffer } }
      else s

  unfoldable pub sync_lengths : State D → State D
  sync_lengths s =
      let c = s.conn in
      record s {
        conn = record c {
          in_buffer_len = D.ring_length c.in_buffer;
          out_buffer_len = D.ring_length c.out_buffer;
        };
      }

  abbrev pub finish_write : Bool × State D → State D
  finish_write (closed, s) = if closed then s else sync_lengths (reset_out s)

  abbrev pub finish_read : Bool × State D → State D
  finish_read (closed, s) = if closed then s else sync_lengths (reset_in s)

  -- The two branches of `HandleEvent` that may write or read.
  unfoldable pub write_side : Handler D → ℕ → ℕ → State D → State D
  unfolding sync_lengths
  write_side H fd events s =
      if has events event_write then finish_write (handle_write H fd s) else sync_lengths s

  unfoldable pub read_side : Handler D → Protocol D → ℕ → ℕ → State D → State D
  unfolding sync_lengths
  read_side H P fd events s =
      if has events event_read then finish_read (handle_read D H P fd s) else sync_lengths s

  -- `HandleEvent` behind its first test.
  unfoldable pub dispatch_event : Handler D → Protocol D → ℕ → ℕ → State D → State D
  unfolding write_side read_side
  dispatch_event H P fd events s =
      if has events event_err
      then handle_close D H fd s
      else if not (D.is_empty s.conn.out_buffer)
      then write_side H fd events s
      else read_side H P fd events s

  unfoldable pub handle_event : Handler D → Protocol D → ℕ → ℕ → State D → State D
  unfolding touch dispatch_event
  handle_event H P fd events s = dispatch_event H P fd events (touch s)
