-- ===== src/Poller/Kqueue.antt =====
-- poller/kqueue.go: the wrapper of kqueue. `sockets` is the map from a descriptor to the events that
-- are registered for it; `kevent` is the system call with a list of changes.
pub mod Stale
use gev.Base.{
  ℕ, Bool, true, false, not, ◌&&◌, ◌||◌, Option, none, some, List, [], ◌∷◌, ◌++◌, ◌*◌, bit_or, ◌==◌,
  if◌then◌else◌, lookup, insert, erase, length,
}
use gev.Deps.{Errno, eintr, Result, ok, err}
use gev.Poller.{event_read, event_write, event_err, event_none, has, wait_events_begin}

pub data Filter : Type 0 where
  evfilt_read evfilt_write evfilt_user : Filter

pub data Change : Type 0 where
  -- `EV_ADD | EV_ENABLE` and `EV_DELETE | EV_ONESHOT` for a descriptor and a filter.
  add_enable delete_oneshot : ℕ → Filter → Change
  -- `EV_ADD | EV_CLEAR` and `NOTE_TRIGGER` for the user event 0.
  user_add user_trigger : Change

pub record Poller : Type 0 where
  pub fd : ℕ
  pub running : Bool
  pub wait_done : Bool
  pub sockets : List (ℕ × ℕ)

pub data Error : Type 0 where
  err_closed load_error : Error
  err_kevent : Errno → Error

-- The changes from the events `old` to the events `new` of a descriptor.
unfoldable pub k_events : ℕ → ℕ → ℕ → List Change
unfolding has
k_events old new fd =
    (if has new event_read
      then (if has old event_read then [] else add_enable fd evfilt_read ∷ [])
      else (if has old event_read then delete_oneshot fd evfilt_read ∷ [] else []))
    ++ (if has new event_write
        then (if has old event_write then [] else add_enable fd evfilt_write ∷ [])
        else (if has old event_write then delete_oneshot fd evfilt_write ∷ [] else []))

-- The fields `Flags` and `Filter` of an event that `Kevent` gives.
pub record RawEvent : Type 0 where
  pub ident : ℕ
  pub filter : Filter
  pub ev_error : Bool
  pub ev_eof : Bool
  pub ev_enable : Bool

abbrev pub is_write_filter : Filter → Bool
is_write_filter evfilt_write = true
is_write_filter evfilt_read = false
is_write_filter evfilt_user = false

abbrev pub is_read_filter : Filter → Bool
is_read_filter evfilt_read = true
is_read_filter evfilt_write = false
is_read_filter evfilt_user = false

unfoldable pub r_events : RawEvent → ℕ
r_events e =
    let e1 = if e.ev_error || e.ev_eof then event_err else 0 in
    let e2 = if is_write_filter e.filter && e.ev_enable then bit_or e1 event_write else e1 in
    if is_read_filter e.filter && e.ev_enable then bit_or e2 event_read else e2

-- `kqueue` and `kevent` are the system calls, and `close_fd` is `unix.Close`.
module _ {Os : Type 0} (kqueue : Os → Result ℕ × Os)
    (kevent : ℕ → List Change → Os → Option Errno × Os)
    (close_fd : ℕ → Os → Option Errno × Os) where
  create_with : Result ℕ × Os → Result Poller × Os
  create_with (err e, os) = (err e, os)
  create_with (ok fd, os) =
      let (failed, os') = kevent fd (user_add ∷ []) os in
      elim failed [
        | some e ↦ (err e, os')
        | none ↦ (ok (record { fd = fd; running = false; wait_done = false; sockets = [] }), os')
      ]

  pub create : Os → Result Poller × Os
  unfolding create_with
  create os = create_with (kqueue os)

  unfoldable pub wake : Poller → Os → Option Errno × Os
  wake p os = kevent p.fd (user_trigger ∷ []) os

  unfoldable pub close_request : Poller → Os → Option Error × Poller × Os
  unfolding wake
  close_request p os =
      if not p.running
      then (some err_closed, p, os)
      else let p' = record p { running = false } in
        let (e, os') = wake p' os in
        elim e [ some n ↦ (some (err_kevent n), p', os') | none ↦ (none, p', os') ]

  unfoldable pub close_finish : Poller → Os → Os
  close_finish p os = (close_fd p.fd os).1

  abbrev of_kevent : Option Errno → Option Error
  of_kevent none = none
  of_kevent (some e) = some (err_kevent e)

  unfoldable pub add_read : ℕ → Poller → Os → Option Error × Poller × Os
  add_read fd p os =
      let p' = record p { sockets = insert fd event_read p.sockets } in
      let (e, os') = kevent p.fd (k_events event_none event_read fd) os in (of_kevent e, p', os')

  -- The map is changed where `err != nil`, as the source has it.
  unfoldable pub del : ℕ → Poller → Os → Option Error × Poller × Os
  del fd p os = elim (lookup fd p.sockets) [
    | none ↦ (some load_error, p, os)
    | some v ↦
        let (e, os') = kevent p.fd (k_events v event_none fd) os in
        elim e [
          | some n ↦ (some (err_kevent n), record p { sockets = erase fd p.sockets }, os')
          | none ↦ (none, p, os')
        ]
  ]

  -- The body that `EnableReadWrite` and `EnableRead` share.
  unfoldable pub enable : ℕ → ℕ → Poller → Os → Option Error × Poller × Os
  enable events fd p os = elim (lookup fd p.sockets) [
    | none ↦ (some load_error, p, os)
    | some old ↦
        let (e, os') = kevent p.fd (k_events old events fd) os in
        elim e [
          | some n ↦ (some (err_kevent n), record p { sockets = insert fd events p.sockets }, os')
          | none ↦ (none, p, os')
        ]
  ]

  unfoldable pub enable_read_write : ℕ → Poller → Os → Option Error × Poller × Os
  unfolding enable
  enable_read_write fd p os = enable (bit_or event_write event_read) fd p os

  unfoldable pub enable_read : ℕ → Poller → Os → Option Error × Poller × Os
  unfolding enable
  enable_read fd p os = enable event_read fd p os

pub data Wait : Type 0 where
  wait_err : Errno → Wait
  ready : List RawEvent → Wait

-- The variables of `Poll`; `blocking` is `tsp == nil`.
pub record PollVars : Type 0 where
  pub wake : Bool
  pub blocking : Bool
  pub events_len : ℕ

abbrev pub poll_start : PollVars
poll_start = record { wake = false; blocking = true; events_len = wait_events_begin }

module _ {W : Type 0} (handler : Option ℕ → ℕ → W → W) (running : W → Bool) where
  pub scan : List RawEvent → Bool → W → Bool × W
  scan [] wake w = (wake, w)
  scan (e ∷ es) wake w =
      scan es (if e.ident == 0 then true else wake)
        (if e.ident == 0 then w else handler (some e.ident) (r_events e) w)

  after_scan : ℕ → PollVars → Bool × W → Bool × PollVars × W
  after_scan n v (wake, w) =
      let (wake', w') = if wake then (false, handler none 0 w) else (wake, w) in
      let len = if n == v.events_len then n * 2 else v.events_len in
      if wake && not (running w')
      then (true, record v { wake = wake'; blocking = false }, w')
      else (false, record { wake = wake'; blocking = false; events_len = len }, w')

  pub poll_round : Wait → PollVars → W → Bool × PollVars × W
  unfolding scan after_scan
  poll_round (wait_err eintr) v w = (false, record v { blocking = true }, w)
  poll_round (wait_err e) v w = (false, v, w)
  poll_round (ready []) v w = (false, record v { blocking = true }, w)
  poll_round (ready (e ∷ es)) v w = after_scan (length (e ∷ es)) v (scan (e ∷ es) v.wake w)

  poll_from : List Wait → PollVars → W → Bool × PollVars × W
  unfolding poll_round
  poll_from [] v w = (false, v, w)
  poll_from (x ∷ xs) v w =
      let (done, v', w') = poll_round x v w in
      let rest = poll_from xs v' w' in if done then (true, v', w') else rest

  pub poll : List Wait → W → Bool × PollVars × W
  unfolding poll_from
  poll xs w = poll_from xs poll_start w
