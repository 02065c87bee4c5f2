-- ===== src/Reactor/Count.antt =====
-- server.go and connection.go with eventloop/eventloop.go: the count of connections after a registration
-- that failed.
use gev.Base.{ℕ, ◌≡◌, refl, ap, ◌∙◌, true, some, List, arith, ==_refl, decr, erase, insert}
use gev.Deps.{Deps, Errno}
use gev.EventLoop
use gev.EventLoop.{EventLoop}
use gev.Poller.Epoll
use gev.Protocol.{Protocol}
use gev.Connection.{State, Handler, Task, close_task, open_task}
use gev.Connection.Close.{handle_close, run_callback}
use gev.Connection.Close.Once.{handle_close_lem, run_callback-Keeps}
use gev.Reactor.{World, focus, unfocus, on_conn, run_task, open_connection}

module _ (D : Deps) (H : Handler D) (P : Protocol D) where
  -- The connection after `OnConnect`.
  abbrev pub met : ℕ → World D → State D
  met c w = run_callback D (H.on_connect (w.conns c) w.user) (focus D c w)

  add_socket-refused :
      (c fd : ℕ) (m : List (ℕ × ℕ)) (e : Errno) (l : EventLoop ℕ (Task D)) (os : D.Os)
      → l.sockets ≡ some m
      → (Epoll.add_read D l.poll fd os).0 ≡ some e
      → EventLoop.add_socket_and_enable_read D fd c l os
        ≡ some (
          some e,
          record l { sockets = some (erase fd (insert fd c m)) },
          (Epoll.add_read D l.poll fd os).1,
        )
  unfolding EventLoop.add_socket_and_enable_read
  add_socket-refused c fd m e l os live refused = ground arith

  open_connection-refused :
      (c fd : ℕ) (m : List (ℕ × ℕ)) (e : Errno) (w : World D)
      → w.loop.sockets ≡ some m
      → (w.conns c).connected ≡ true
      → (Epoll.add_read D (met c w).loop.poll fd (met c w).os).0 ≡ some e
      → (w' : World D) × (open_connection D H P c fd w ≡ some w')
        × ((w'.conns c).connected ≡ true)
        × (w'.loop.conn_count ≡ w.loop.conn_count)
  unfolding open_connection on_conn
  open_connection-refused c fd m e w live up refused =
      let t = met c w in
      let k = run_callback-Keeps D (H.on_connect (w.conns c) w.user) (focus D c w) in
      let w0 = unfocus D c t w in
      let l = w0.loop in
      let sockets : t.loop.sockets ≡ some m = k.keep_sockets ∙ live in
      (
        record w0 {
          loop = record l { sockets = some (erase fd (insert fd c m)) };
          os = (Epoll.add_read D t.loop.poll fd t.os).1;
        },
        rw (add_socket-refused c fd m e t.loop t.os sockets refused, open_connection) refl,
        rw (==_refl c) (k.keep_connected ∙ up),
        k.keep_count,
      )

  -- Where epoll refuses the descriptor of a new connection, its task leaves the count of connections as
  -- it is and the connection open; the task that closes it later takes one off the count all the same.
  pub open_task-close_task :
      (c fd : ℕ) (m : List (ℕ × ℕ)) (e : Errno) (w : World D)
      → w.loop.sockets ≡ some m
      → (w.conns c).connected ≡ true
      → (Epoll.add_read D (met c w).loop.poll fd (met c w).os).0 ≡ some e
      → (w1 : World D) × (w2 : World D) × (run_task D H P (open_task c fd) w ≡ some w1)
        × (run_task D H P (close_task c) w1 ≡ some w2)
        × (w1.loop.conn_count ≡ w.loop.conn_count)
        × (w2.loop.conn_count ≡ decr w.loop.conn_count)
  unfolding run_task
  open_task-close_task c fd m e w live up refused =
      let (w1, opened, still, count) = open_connection-refused c fd m e w live up refused in
      let s = focus D c w1 in
      let closed = handle_close_lem D H s.conn.fd s still in
      (
        w1,
        unfocus D c (handle_close D H s.conn.fd s) w1,
        opened,
        refl,
        count,
        closed.2 ∙ ap decr count,
      )
