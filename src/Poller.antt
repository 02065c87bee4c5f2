-- ===== src/Poller.antt =====
-- poller/poller.go: the events that a poller reports, and the tests that its users make on them.
pub mod Epoll
pub mod Kqueue
use gev.Base.{ℕ, Bool, not, bit_and, ◌==◌}

abbrev pub event_read : ℕ
event_read = 0x1

abbrev pub event_write : ℕ
event_write = 0x2

abbrev pub event_err : ℕ
event_err = 0x80

abbrev pub event_none : ℕ
event_none = 0

-- `events & flag != 0`.
unfoldable pub has : ℕ → ℕ → Bool
has events flag = not (bit_and events flag == 0)

abbrev pub wait_events_begin : ℕ
wait_events_begin = 1024
