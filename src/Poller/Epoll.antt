-- ===== src/Poller/Epoll.antt =====
-- poller/epoll.go: the wrapper of epoll, with the loop of `Poll` over the results of `EpollWait`.
pub mod Dispatch
use gev.Base.{
  ℕ, suc, ◌*◌, Bool, true, false, not, ◌&&◌, ◌||◌, Option, none, some, List, [], ◌∷◌, bit_or, ◌==◌,
  if◌then◌else◌, length, is_some,
}
use gev.Deps.{Deps, Bytes, Errno, eintr, Result, ok, err, CtlOp, ctl_add, ctl_mod, ctl_del}
use gev.Poller.{event_read, event_write, event_err, has, wait_events_begin}

-- The kernel's bits.
abbrev pub epollin : ℕ
epollin = 0x1

abbrev pub epollpri : ℕ
epollpri = 0x2

abbrev pub epollout : ℕ
epollout = 0x4

abbrev pub epollerr : ℕ
epollerr = 0x8

abbrev pub pollhup : ℕ
pollhup = 0x10

abbrev pub epollrdhup : ℕ
epollrdhup = 0x2000

abbrev pub read_event : ℕ
read_event = bit_or epollin epollpri

abbrev pub write_event : ℕ
write_event = epollout

pub record Poller : Type 0 where
  pub fd : ℕ
  pub event_fd : ℕ
  pub running : Bool
  -- `waitDone` is closed.
  pub wait_done : Bool

abbrev pub wake_bytes : Bytes
wake_bytes = 1 ∷ 0 ∷ 0 ∷ 0 ∷ 0 ∷ 0 ∷ 0 ∷ 0 ∷ []

pub data CloseError : Type 0 where
  err_closed : CloseError
  err_wake : Errno → CloseError

module _ (D : Deps) where
  open D use {Os, write, read, close_fd, epoll_create, eventfd, epoll_ctl}

  pub create_with_eventfd : ℕ → Result ℕ × Os → Result Poller × Os
  create_with_eventfd fd (err e, os) = (err e, (close_fd fd os).1)
  create_with_eventfd fd (ok event_fd, os) =
      let (failed, os') = epoll_ctl fd ctl_add event_fd epollin os in
      elim failed [
        | some e ↦ (err e, (close_fd event_fd (close_fd fd os').1).1)
        | none ↦
            (ok (record { fd = fd; event_fd = event_fd; running = false; wait_done = false }), os')
      ]

  create_with_epoll : Result ℕ × Os → Result Poller × Os
  create_with_epoll (err e, os) = (err e, os)
  create_with_epoll (ok fd, os) = create_with_eventfd fd (eventfd os)

  unfoldable pub create : Os → Result Poller × Os
  unfolding create_with_epoll create_with_eventfd
  create os = create_with_epoll (epoll_create os)

  unfoldable pub wake : Poller → Os → Option Errno × Os
  wake ep os = let (n, e, os') = write ep.event_fd wake_bytes os in (e, os')

  unfoldable pub wake_handler_read : Poller → Os → Os
  wake_handler_read ep os = let (bts, e, os') = read ep.event_fd 8 os in os'

  -- `Close` up to its wait for `waitDone`.
  unfoldable pub close_request : Poller → Os → Option CloseError × Poller × Os
  unfolding wake
  close_request ep os =
      if not ep.running
      then (some err_closed, ep, os)
      else let ep' = record ep { running = false } in
        let (e, os') = wake ep' os in
        elim e [ some n ↦ (some (err_wake n), ep', os') | none ↦ (none, ep', os') ]

  -- What `Close` does when `waitDone` is closed.
  unfoldable pub close_finish : Poller → Os → Os
  close_finish ep os = (close_fd ep.event_fd (close_fd ep.fd os).1).1

  unfoldable pub add : Poller → ℕ → ℕ → Os → Option Errno × Os
  add ep fd events os = epoll_ctl ep.fd ctl_add fd events os

  unfoldable pub add_read : Poller → ℕ → Os → Option Errno × Os
  unfolding add
  add_read ep fd os = add ep fd read_event os

  unfoldable pub add_write : Poller → ℕ → Os → Option Errno × Os
  unfolding add
  add_write ep fd os = add ep fd write_event os

  unfoldable pub del : Poller → ℕ → Os → Option Errno × Os
  del ep fd os = epoll_ctl ep.fd ctl_del fd 0 os

  unfoldable pub mod_fd : Poller → ℕ → ℕ → Os → Option Errno × Os
  mod_fd ep fd events os = epoll_ctl ep.fd ctl_mod fd events os

  unfoldable pub enable_read_write : Poller → ℕ → Os → Option Errno × Os
  unfolding mod_fd
  enable_read_write ep fd os = mod_fd ep fd (bit_or read_event write_event) os

  unfoldable pub enable_write : Poller → ℕ → Os → Option Errno × Os
  unfolding mod_fd
  enable_write ep fd os = mod_fd ep fd write_event os

  unfoldable pub enable_read : Poller → ℕ → Os → Option Errno × Os
  unfolding mod_fd
  enable_read ep fd os = mod_fd ep fd read_event os

-- `events[i].Events` as an `Event`.
unfoldable pub r_events : ℕ → ℕ
r_events raw =
    let e1 = if has raw pollhup && not (has raw epollin) then event_err else 0 in
    let e2 = if has raw epollerr || has raw epollout then bit_or e1 event_write else e1 in
    if has raw (bit_or (bit_or epollin epollpri) epollrdhup) then bit_or e2 event_read else e2

-- One result of `EpollWait`.
pub data Wait : Type 0 where
  wait_err : Errno → Wait
  ready : List (ℕ × ℕ) → Wait

-- The variables of `Poll`: `wake`, the timeout (`none` for -1) and the length of `events`.
pub record PollVars : Type 0 where
  pub wake : Bool
  pub msec : Option ℕ
  pub events_len : ℕ

abbrev pub poll_start : PollVars
poll_start = record { wake = false; msec = some 0; events_len = wait_events_begin }

-- The loop over a state `W` of the program. `handler` is called with a descriptor, or with `none` for
-- the -1 of a wake-up, and `wake_read` is `wakeHandlerRead`.
module _ {W : Type 0} (event_fd : ℕ) (handler : Option ℕ → ℕ → W → W) (wake_read : W → W)
    (running : W → Bool) where
  -- `for i := 0; i < n; i++`, with the flag `wake`.
  pub scan : List (ℕ × ℕ) → Bool → W → Bool × W
  scan [] wake w = (wake, w)
  scan ((fd, raw) ∷ es) wake w =
      scan es (if fd == event_fd then true else wake)
        (if fd == event_fd then wake_read w else handler (some fd) (r_events raw) w)

  -- The rest of a round: `true` says that `Poll` returns.
  after_scan : ℕ → PollVars → Bool × W → Bool × PollVars × W
  after_scan n v (wake, w) =
      let (wake', w') = if wake then (false, handler none 0 w) else (wake, w) in
      let len = if n == v.events_len then n * 2 else v.events_len in
      if wake && not (running w')
      then (true, record v { wake = wake'; msec = some 0 }, w')
      else (false, record { wake = wake'; msec = some 0; events_len = len }, w')

  pub poll_round : Wait → PollVars → W → Bool × PollVars × W
  unfolding scan after_scan
  poll_round (wait_err eintr) v w = (false, record v { msec = none }, w)
  poll_round (wait_err e) v w = (false, v, w)
  poll_round (ready []) v w = (false, record v { msec = none }, w)
  poll_round (ready (e ∷ es)) v w = after_scan (length (e ∷ es)) v (scan (e ∷ es) v.wake w)

  -- `Poll` over the results that `EpollWait` gives in turn, until it returns or they end.
  poll_from : List Wait → PollVars → W → Bool × PollVars × W
  unfolding poll_round
  poll_from [] v w = (false, v, w)
  poll_from (x ∷ xs) v w =
      let (done, v', w') = poll_round x v w in
      let rest = poll_from xs v' w' in if done then (true, v', w') else rest

  pub poll : List Wait → W → Bool × PollVars × W
  unfolding poll_from
  poll xs w = poll_from xs poll_start w
