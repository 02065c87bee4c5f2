-- ===== src/Examples/Goroutines.antt =====
-- server_std.go: the goroutines of a connection, where a task of five bytes is sent and the system takes three.
use gev.Base.{◌+◌, ◌≤◌, ◌≢◌, ◌≡◌, refl, ◌++◌, true, false, [], ◌∷◌, none}
use gev.Deps.Simple.{sim, sim-RingLaws}
use gev.Windows.{SendTask}
use gev.Windows.Goroutines.{
  polling, swapping, running, sending, Shared, test_connected, append, close_dying, clear_connected,
  all_run, flush, flushing, ended, go_on, swap, see_connected, send_task, with_base, with_queues,
  next_task, send_packet, with_flags, write_first, IsNew, Reach, here, next,
}
use gev.Windows.Goroutines.Ends.{tasks, Run, start, then_step, GoesOn, Run-ends}
use gev.Windows.Goroutines.Order.{taken, queued, runs_tasks, Reach-in_order}
use gev.Windows.Goroutines.Sent.{IsPrefix, sent_of, total, packets, is_closing}
use gev.Windows.Goroutines.Sent.Safe.{Reach-sent}
use gev.Examples.Servers.{sockets, sent, sockets-ConnLaws, waiting}

abbrev task : SendTask sim
task = record { value = 1 ∷ 2 ∷ 3 ∷ 4 ∷ 5 ∷ []; finish = none }

abbrev at_first : Shared sim
at_first = record { base = waiting ([], []); senders = 0; log = []; done = []; pc = polling }

abbrev tested : Shared sim
tested = record at_first { senders = 1 }

abbrev appended : Shared sim
appended = record at_first {
  base = with_queues sim sockets (task ∷ []) [] (waiting ([], []));
  log = task ∷ [];
}

abbrev entered : Shared sim
entered = record appended { pc = swapping }

abbrev swapped : Shared sim
swapped =
    with_base sim sockets (with_queues sim sockets [] (task ∷ []) (waiting ([], []))) running
      appended

abbrev seen : Shared sim
seen = record swapped { pc = sending }

abbrev written : Shared sim
written = send_packet sim sockets (1 ∷ 2 ∷ 3 ∷ 4 ∷ 5 ∷ []) (next_task sim sockets task [] seen)

at_first-IsNew : IsNew sim sockets sent at_first
at_first-IsNew = record {
  at_top = refl;
  none_sent = refl;
  none_waits = refl;
  none_queued = refl;
  none_taken = refl;
  none_logged = refl;
  none_done = refl;
}

appended-Reach : Reach sim sockets sent appended
appended-Reach =
    next (next {t = tested} (here at_first-IsNew) (test_connected refl refl))
      (append task 0 refl refl)

swapped-Reach : Reach sim sockets sent swapped
swapped-Reach = next (next {t = entered} appended-Reach (go_on refl refl refl)) (swap refl refl)

written-Reach : Reach sim sockets sent written
written-Reach =
    next (next {t = seen} swapped-Reach (see_connected task [] refl refl refl refl))
      (send_task task [] refl refl refl)

Reach-in_order_example :
    (written.done ++ (taken sim sockets written ++ queued sim sockets written) ≡ written.log)
    × (runs_tasks written.pc ≡ false → taken sim sockets written ≡ [])
Reach-in_order_example = Reach-in_order sim sockets written-Reach

Reach-sent_example :
    IsPrefix (sent_of sim sockets sent written) (packets sim sockets written.log)
    × (written.base.conn.connected ≡ true
        → is_closing written.pc ≡ false
        → total sim sockets sent written ≡ packets sim sockets written.done)
Reach-sent_example = Reach-sent sim sockets sent sim-RingLaws sockets-ConnLaws written-Reach

-- `Close` by another goroutine, and two steps of `writeLoop` after it.
abbrev dying : Shared sim
dying = record written { base = with_flags sim sockets true true written.base }

abbrev shut : Shared sim
shut = record written { base = with_flags sim sockets false true written.base }

abbrev tasks_run : Shared sim
tasks_run = record shut { pc = flushing }

abbrev flushed : Shared sim
flushed = write_first sim sockets tasks_run

shut-Reach : Reach sim sockets sent shut
unfolding send_packet
shut-Reach =
    next (next {t = dying} written-Reach (close_dying refl refl)) (clear_connected refl refl)

flushed-Run : Run sim sockets sent shut 2 flushed
unfolding send_packet
flushed-Run =
    then_step (then_step {t = shut} {u = tasks_run} start (all_run refl refl refl))
      (flush refl refl refl)

Run-ends_example :
    (2 ≤ 5 + (tasks sim sockets shut + tasks sim sockets shut))
    × (flushed.pc ≢ ended → GoesOn sim sockets sent flushed)
Run-ends_example =
    Run-ends sim sockets sent shut-Reach (record { down = refl; dying = refl }) flushed-Run
