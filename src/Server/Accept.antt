-- ===== src/Server/Accept.antt =====
-- server.go: what `handleNewConnection` changes.
use Prim.Native.String.{String}
use gev.Base.{
  ℕ, ◌+◌, ◌≡◌, ◌≢◌, refl, true, false, List, [], ◌∷◌, ◌++◌, Option, some, map, arith, get_elem?,
  get_elem?-set, get_elem?-set_other, ◌==◌, ==_refl, ==_iff, ℤ, if◌then◌else◌, pos_part,
}
use gev.Deps.{Deps, Sockaddr}
use gev.EventLoop
use gev.EventLoop.{EventLoop}
use gev.Connection.{Task, State, open_task}
use gev.Connection.Close.{queue}
use gev.Connection.Idle.{new_connection, arm}
use gev.Server.{Loop, Server, make_connection, hand_over, handle_new_connection}

module _ (D : Deps) where
  pub new_connection_lem :
      (self fd : ℕ) (l : Loop D) (peer : String) (idle : ℕ) (user : D.User) (os : D.Os)
      → let t = new_connection D self fd l peer idle user os in
        (t.loop ≡ l) × (t.conn.connected ≡ true) × (t.conn.fd ≡ fd)
  unfolding new_connection arm
  new_connection_lem self fd l peer idle user os = ground arith

  pub queue_lem :
      (f : Task D) (s : State D)
      → ((queue D f s).loop.task_queue_w ≡ s.loop.task_queue_w ++ f ∷ [])
        × ((queue D f s).loop.sockets ≡ s.loop.sockets)
        × ((queue D f s).loop.conn_count ≡ s.loop.conn_count)
        × ((queue D f s).conn ≡ s.conn)
  unfolding queue EventLoop.queue_in_loop
  queue_lem f s = ground arith

  same_key : (k j : ℕ) → k ≢ j → (k == j) ≡ false
  same_key k j h = ground (arith, ==_iff k j)

  module _ {St : Type 0} (strategy : St → List ℤ → Option (ℕ × St))
      (addr_text : Sockaddr String → String) where
    -- Where the strategy chooses one of the worker loops, a new connection is open on its descriptor, its
    -- task is queued behind the others of that loop, whose sockets and count stay as they are until
    -- it runs, and neither another loop nor another connection is changed.
    pub handle_new_connection_lem :
        (fd : ℕ) (sa : Sockaddr String) (s : Server D St) (i : ℕ) (st : St) (l : Loop D)
        → strategy s.strategy_state (map (λ x. x.conn_count) s.work_loops) ≡ some (i, st)
        → get_elem? s.work_loops i ≡ some l
        → (t : Server D St) × (handle_new_connection D strategy addr_text fd sa s ≡ some t)
          × ((k : Loop D) × (get_elem? t.work_loops i ≡ some k)
              × (k.task_queue_w ≡ l.task_queue_w ++ open_task s.next_conn fd ∷ [])
              × (k.sockets ≡ l.sockets)
              × (k.conn_count ≡ l.conn_count))
          × ((j : ℕ) → j ≢ i → get_elem? t.work_loops j ≡ get_elem? s.work_loops j)
          × ((t.conns s.next_conn).connected ≡ true)
          × ((t.conns s.next_conn).fd ≡ fd)
          × ((c : ℕ) → c ≢ s.next_conn → t.conns c ≡ s.conns c)
          × (t.next_conn ≡ s.next_conn + 1)
    unfolding handle_new_connection
    handle_new_connection_lem fd sa s i st l chosen there =
        let n =
          new_connection D s.next_conn fd l (addr_text sa) (pos_part s.idle_time) s.user s.os in
        let (is_loop, up, is_fd) =
          new_connection_lem s.next_conn fd l (addr_text sa) (pos_part s.idle_time) s.user s.os in
        let c = s.next_conn in
        let here : State D = record {
          self = c;
          conn = if c == c then n.conn else s.conns c;
          loop = l;
          os = n.os;
          user = s.user;
        } in
        let (queued, sockets, count, same) = queue_lem (open_task c fd) here in
        let k = (queue D (open_task c fd) here).loop in
        (
          hand_over D c fd i l (make_connection D addr_text fd sa st l s),
          rw (chosen, handle_new_connection) (rw there refl),
          (k, get_elem?-set s.work_loops i k l there, queued, sockets, count),
          (λ j other. get_elem?-set_other s.work_loops i j k other),
          rw (==_refl c) up,
          rw (==_refl c) is_fd,
          (λ d other. rw (same_key d c other)),
          refl,
        )
