-- ===== src/Examples/Setup.antt =====
-- `NewServer` on a small network.
use gev.Base.{ℕ, ltb_ℤ, leb, if◌then◌else◌, true, some, none, pos}
use gev.Deps.{ok, err, eagain}
use gev.Deps.Simple.{Os}
use gev.Listener.{Net}
use gev.Server.Setup.{Env}

abbrev net : Net Os
net = record {
  NetListener = ℕ;
  reuseport_listen = λ network addr os. (ok 5, os);
  listen = λ network addr os. (ok 5, os);
  is_tcp = λ l. true;
  file_fd = λ l os. (ok 6, os);
  set_nonblock = λ fd os. (none, os);
  accept = λ fd os. (err eagain, os);
  close_listener = λ l os. (none, os);
}

-- A timing wheel that wants a tick of a millisecond, and memory for a million loops.
abbrev env : Env Os
env = record {
  num_cpu = 4;
  new_timing_wheel = λ tick size os. if ltb_ℤ tick (pos 1000000) then none else some os;
  can_make = λ n. leb n 1000000;
}
