-- ===== src/Windows/Rounds.antt =====
-- server_std.go: one round of `readLoop` and one of `writeLoop`.
use gev.Base.{
  ℕ, suc, ◌/◌, Bool, true, false, not, ◌&&◌, [], none, if◌then◌else◌, ltb, ◌==◌, length, is_nil,
  is_some,
}
use gev.Deps.{Deps, Bytes}
use gev.Windows.{Parts, State, close, send, do_pending_func, handler_protocol, second}

module _ (D : Deps) (S : Parts D) where
  open D use {Os}

  abbrev pub refresh : State D → State D
  refresh s =
      let c = s.conn in
      if ltb 0 c.idle_time
      then record s { conn = record c { active_time = D.now s.os / second } }
      else s

  abbrev sync_in : State D → State D
  sync_in s =
      let c = s.conn in record s { conn = record c { in_buffer_len = D.ring_length c.in_buffer } }

  abbrev pub sync_out : State D → State D
  sync_out s =
      let c = s.conn in record s { conn = record c { out_buffer_len = D.ring_length c.out_buffer } }

  -- What is sent for the answers: `Send` of a copy of them.
  abbrev send_answers : (Bytes → D.Data) → Bytes × State D → State D
  send_answers of_bytes (tmp, s) = if is_nil tmp then s else (send D S (of_bytes tmp) none s).1

  -- A round of `readLoop`, with the room in its buffer: `true` says that the goroutine ends. The first
  -- round reads into a buffer of length 0, and later ones into one of 66635 bytes.
  unfoldable pub read_round : (Bytes → D.Data) → ℕ → State D → Bool × State D
  unfolding close handler_protocol send
  read_round of_bytes room s =
      let (bts, e, os) = S.read s.self room s.os in
      let c = s.conn in
      let s1 = record s { os = os } in
      let s2 = record s1 { conn = record c { in_buffer = D.ring_write bts c.in_buffer } } in
      let fuel = suc (D.ring_length (D.ring_write bts c.in_buffer)) in
      if s.conn.dying
      then (true, s)
      else if is_some e
      then (true, close D S s1)
      else (false, sync_in (refresh (send_answers of_bytes (handler_protocol D S fuel [] s2))))

  abbrev pub retrieve_out : ℕ → State D → State D
  retrieve_out n s =
      let c = s.conn in record s { conn = record c { out_buffer = D.retrieve n c.out_buffer } }

  -- The second write of a round, and its end.
  unfoldable pub write_second : Bytes → State D → Bool × State D
  unfolding close
  write_second end s =
      let (n, failed, os) = S.write s.self end s.os in
      let s1 = record s { os = os } in
      if failed then (true, close D S s1) else (false, sync_out (refresh (retrieve_out n s1)))

  unfoldable pub write_first : State D → Bool × State D
  unfolding close write_second
  write_first s =
      let (first, end) = D.peek_all s.conn.out_buffer in
      let (n, failed, os) = S.write s.self first s.os in
      let s1 = record s { os = os } in
      let s2 = retrieve_out n s1 in
      if failed
      then (true, close D S s1)
      else if n == length first && not (is_nil end)
      then write_second end s2
      else (false, sync_out (refresh s2))

  -- A round of `writeLoop`.
  unfoldable pub write_round : State D → Bool × State D
  unfolding do_pending_func write_first
  write_round s =
      let s1 = do_pending_func D S s in
      if s.conn.dying
      then (true, s)
      else if D.is_empty s1.conn.out_buffer
      then (false, s1)
      else write_first s1
