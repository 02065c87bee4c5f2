-- ===== src/Examples/Loops.antt =====
-- The loop, its poller, the server and the strategies: the theorems on small runs.
use gev.Base.{
  ℕ, ◌+◌, ◌<◌, ◌≡◌, ◌≢◌, refl, ◌++◌, ◌⊎◌, ◌&&◌, ◌||◌, bit_or, not, Bool, true, false, List, [], ◌∷◌,
  Option, none, some, lookup, get_elem?, ℤ, pos, ◌≤ℤ◌, if◌then◌else◌,
}
use gev.Deps.{Errno, Result, ok}
use gev.Deps.Simple.{sim}
use gev.EventLoop.Wakeup.{
  Shared, Reach, here, next, append, start, polling, woken, armed, Reach-queue, Reach-order,
}
use gev.Connection.{close_task, open_task, stop_task}
use gev.Poller.{event_read, event_write, event_err, has}
use gev.Poller.Epoll.{
  poll_round, poll_start, ready, r_events, pollhup, epollin, epollpri, epollerr, epollout,
  epollrdhup,
}
use gev.Poller.Epoll.Dispatch.{is_woken, handle_all, poll_round_lem}
use gev.Poller.Kqueue
use gev.Poller.Kqueue.{Change, add_enable, evfilt_write, k_events}
use gev.Poller.Kqueue.Stale.{enable_read_stale}
use gev.LoadBalance.{least_connection}
use gev.LoadBalance.Fairness.{least_connection_lem}
use gev.Reactor.{World, run_task, loop_event}
use gev.Reactor.Lifecycle.{close_task_silences, open_task-stop_task}
use gev.Examples.{echo, raw, world}

-- One goroutine has appended the task 3.
abbrev appended_once : Shared ℕ
appended_once = record start { queue = 3 ∷ []; log = 3 ∷ []; appended = 1 }

appended_once-Reach : Reach appended_once
appended_once-Reach = next here (append 3 refl)

abbrev one_task : List ℕ
one_task = 3 ∷ []

has_task : one_task ≢ []
has_task = λ h. cc

Reach-queue_example : (0 < 0 + 0 + 1) ⊎ (appended_once.pc ≡ woken) ⊎ (appended_once.pc ≡ armed)
Reach-queue_example = Reach-queue appended_once-Reach has_task

Reach-order_example :
    ([] ++ ([] ++ one_task) ≡ one_task) × (polling ≡ polling → 0 + 0 + 1 ≡ 0 → [] ≡ one_task)
Reach-order_example = Reach-order appended_once-Reach

close_task_silences_example :
    (w' : World sim) × (run_task sim echo raw (close_task 0) world ≡ some w')
    × ((w'.conns 0).connected ≡ false)
    × (loop_event sim echo raw (some 7) 1 w' ≡ some w')
close_task_silences_example = close_task_silences sim echo raw 0 1 world refl

open_task-stop_task_example :
    (w' : World sim) × (run_task sim echo raw stop_task world ≡ some w')
    × (run_task sim echo raw (open_task 1 8) w' ≡ none)
open_task-stop_task_example = open_task-stop_task sim echo raw 1 8 world

-- Input on descriptor 7, behind a wake-up by the eventfd 9; the handler notes what it is called with.
abbrev note : Option ℕ → ℕ → List ℕ → List ℕ
note none events w = w ++ 0 ∷ []
note (some fd) events w = w ++ fd ∷ events ∷ []

abbrev still_running : List ℕ → Bool
still_running w = true

poll_round_lem_example :
    let r = poll_round 9 note (λ w. w) still_running (ready ((9, 1) ∷ (7, 1) ∷ [])) poll_start [] in
    let handled = handle_all 9 note (λ w. w) still_running ((9, 1) ∷ (7, 1) ∷ []) [] in
    (r.2 ≡ (
      if is_woken 9 note (λ w. w) still_running ((9, 1) ∷ (7, 1) ∷ [])
      then note none 0 handled
      else handled))
    × (r.0 ≡ (
        is_woken 9 note (λ w. w) still_running ((9, 1) ∷ (7, 1) ∷ []) && not (still_running r.2)))
    × (r.1.wake ≡ false)
    × ((raw : ℕ)
        → (has (r_events raw) event_err ≡ (has raw pollhup && not (has raw epollin)))
          × (has (r_events raw) event_write ≡ (has raw epollerr || has raw epollout))
          × (has (r_events raw) event_read ≡ has raw (bit_or (bit_or epollin epollpri) epollrdhup)))
poll_round_lem_example =
    poll_round_lem 9 note (λ w. w) still_running (9, 1) ((7, 1) ∷ []) poll_start [] refl

-- A kernel that takes every change and keeps them all.
abbrev take_changes : ℕ → List Change → List Change → Option Errno × List Change
take_changes fd cs os = (none, os ++ cs)

abbrev new_kqueue : List Change → Result ℕ × List Change
new_kqueue os = (ok 4, os)

abbrev close_kqueue : ℕ → List Change → Option Errno × List Change
close_kqueue fd os = (none, os)

abbrev kpoller : Kqueue.Poller
kpoller = record { fd = 4; running = true; wait_done = false; sockets = (7, event_read) ∷ [] }

enable_read_stale_example :
    let (e, p1, os1) = Kqueue.enable_read_write new_kqueue take_changes close_kqueue 7 kpoller [] in
    (p1.sockets ≡ (7, event_read) ∷ [])
    × ((Kqueue.enable_read new_kqueue take_changes close_kqueue 7 p1 os1).2
        ≡ (take_changes 4 [] os1).1)
unfolding lookup
enable_read_stale_example =
    enable_read_stale new_kqueue take_changes close_kqueue 7 kpoller [] refl refl

-- Three loops, each seen as its count.
abbrev counts : List ℤ
counts = pos 2 ∷ pos 1 ∷ pos 3 ∷ []

least_connection_lem_example :
    ((counts ≡ []) × (least_connection (λ c. c) counts ≡ none))
    ⊎ ((l : ℤ) × (least_connection (λ c. c) counts ≡ some l)
        × ((i : ℕ) × (get_elem? counts i ≡ some l))
        × ((j : ℕ) (x : ℤ) → get_elem? counts j ≡ some x → l ≤ℤ x))
least_connection_lem_example = least_connection_lem (λ c. c) counts
