-- ===== src/EventLoop.antt =====
-- eventloop/eventloop.go: one loop, which owns a poller, the sockets registered with it and a queue of
-- functions to run. The loop is generic in what stands for a socket (`S`) and for a queued function
-- (`T`); the packets buffer is a constant of the program, and the lock is the atomicity of a step.
pub mod Wakeup
pub mod Laws
use mathlib.Core.Option
use gev.Base.{
  ℕ, Bool, true, false, Option, none, some, List, [], ◌∷◌, ◌++◌, if◌then◌else◌, lookup, insert,
  erase, replicate, ℤ, pos, incr, decr,
}
use gev.Deps.{Deps, Bytes, Errno, Result, ok, err}
use gev.Poller.Epoll
use gev.Poller.Epoll.{Poller, CloseError}

abbrev pub default_packet_size : ℕ
default_packet_size = 65536

abbrev pub default_buffer_size : ℕ
default_buffer_size = 4096

pub record EventLoop (S T : Type 0) : Type 0 where
  pub conn_count : ℤ
  pub need_wake : Bool
  pub poll : Poller
  -- `none` is the nil map that `Stop` leaves.
  pub sockets : Option (List (ℕ × S))
  pub task_queue_w : List T
  pub task_queue_r : List T
  pub user_buffer : Bytes

abbrev pub connection_count : {S T : Type 0} → EventLoop S T → ℤ
connection_count l = l.conn_count

-- A nil map reads as empty, and `delete` on it does nothing.
abbrev pub find_socket : {S : Type 0} → ℕ → Option (List (ℕ × S)) → Option S
find_socket fd none = none
find_socket fd (some m) = lookup fd m

abbrev pub delete_socket : {S : Type 0} → ℕ → Option (List (ℕ × S)) → Option (List (ℕ × S))
delete_socket fd none = none
delete_socket fd (some m) = some (erase fd m)

module _ {S T : Type 0} where
  new_with : {Os : Type 0} → Result Poller × Os → Result (EventLoop S T) × Os
  new_with (err e, os) = (err e, os)
  new_with (ok p, os) = (
    ok (record {
      conn_count = pos 0;
      need_wake = true;
      poll = p;
      sockets = some [];
      task_queue_w = [];
      task_queue_r = [];
      user_buffer = replicate default_buffer_size 0;
    }),
    os,
  )

module _ (D : Deps) {S T : Type 0} where
  open D use {Os}

  unfoldable pub new : Os → Result (EventLoop S T) × Os
  unfolding new_with
  new os = new_with (Epoll.create D os)

  unfoldable pub delete_fd_in_loop : ℕ → EventLoop S T → Os → EventLoop S T × Os
  delete_fd_in_loop fd l os =
      let (e, os') = Epoll.del D l.poll fd os in
      (record l { sockets = delete_socket fd l.sockets; conn_count = decr l.conn_count }, os')

  -- `none` is the panic of a write to a nil map.
  unfoldable pub add_socket_and_enable_read :
      ℕ → S → EventLoop S T → Os → Option (Option Errno × EventLoop S T × Os)
  add_socket_and_enable_read fd s l os = elim l.sockets [
    | none ↦ none
    | some m ↦
        let m' = insert fd s m in
        let (failed, os') = Epoll.add_read D l.poll fd os in
        some (elim failed [
          | some e ↦ (some e, record l { sockets = some (erase fd m') }, os')
          | none ↦ (none, record l { sockets = some m'; conn_count = incr l.conn_count }, os')
        ])
  ]

  unfoldable pub enable_read_write : ℕ → EventLoop S T → Os → Option Errno × Os
  enable_read_write fd l os = Epoll.enable_read_write D l.poll fd os

  unfoldable pub enable_read : ℕ → EventLoop S T → Os → Option Errno × Os
  enable_read fd l os = Epoll.enable_read D l.poll fd os

  -- An error of `Wake` is only logged.
  unfoldable pub queue_in_loop : T → EventLoop S T → Os → EventLoop S T × Os
  queue_in_loop f l os =
      let l' = record l { task_queue_w = l.task_queue_w ++ f ∷ [] } in
      if l.need_wake
      then (record l' { need_wake = false }, (Epoll.wake D l.poll os).1)
      else (l', os)

  -- `Stop` up to the wait of `poll.Close`; `stop` is the function that it queues.
  unfoldable pub stop_request : T → EventLoop S T → Os → Option CloseError × EventLoop S T × Os
  unfolding queue_in_loop
  stop_request stop l os =
      let (l1, os1) = queue_in_loop stop l os in
      let l2 = record l1 { conn_count = pos 0 } in
      let (e, p, os2) = Epoll.close_request D l2.poll os1 in (e, record l2 { poll = p }, os2)

-- The loop as a part of a larger state `W`, on which the sockets and the queued functions act; `none`
-- is a panic, which ends the program.
module _ {S T W : Type 0} (get : W → EventLoop S T) (put : EventLoop S T → W → W)
    (handle : S → ℕ → ℕ → W → Option W) (run : T → W → Option W) where
  swap_queues : W → W
  swap_queues w =
      let l = get w in
      put (record l { task_queue_w = l.task_queue_r; task_queue_r = l.task_queue_w }) w

  unfoldable pub run_all : List T → W → Option W
  run_all [] w = some w
  run_all (f ∷ fs) w = elim (run f w) [ none ↦ none | some w' ↦ run_all fs w' ]

  unfoldable pub do_pending_func : W → Option W
  unfolding swap_queues run_all
  do_pending_func w =
      let w1 = swap_queues w in
      Option.map (λ w2. put (record (get w2) { task_queue_r = [] }) w2)
        (run_all (get w1).task_queue_r w1)

  -- The descriptor is `none` for -1.
  unfoldable pub handler_event : Option ℕ → ℕ → W → Option W
  unfolding do_pending_func
  handler_event (some fd) events w = elim (find_socket fd (get w).sockets) [
    | none ↦ some w
    | some s ↦ handle s fd events w
  ]
  handler_event none events w = do_pending_func (put (record (get w) { need_wake = true }) w)
