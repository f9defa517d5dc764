-- ===== src/Daemon/Tests.antt =====
-- Runs of the supervision and of the shutdown.
use nvme_disk_mon.Common.{◌≡◌, refl, true, false, [], ◌∷◌, none, some, ok, err}
use nvme_disk_mon.Daemon.{
  exited_early, database_error, writer, monitor, into_failure, nothing, Poll, clean, failed,
  decide_received, decide_finished, decide_task, decide_rest, decide_poll, supervise_long_tasks,
  retain_first_failure, retain, retain_late, result_of, Remains, shut_down, end_of_daemon,
  supervise_and_stop,
}
use nvme_disk_mon.Daemon.Supervised.{IsExplained, supervise_and_stop-IsExplained}

abbrev idle : Poll
idle = record {
  first = nothing;
  stop_at_first = false;
  stop = false;
  finished_core_task = none;
  second = none;
  stop_at_second = false;
  last = nothing;
  stop_at_last = false;
}

-- The signal comes in while the loop sleeps.
abbrev stopping : Poll
stopping = record {
  first = nothing;
  stop_at_first = true;
  stop = true;
  finished_core_task = none;
  second = none;
  stop_at_second = true;
  last = nothing;
  stop_at_last = true;
}

-- The database writer has finished, and no exit comes in.
abbrev lost_writer : Poll
lost_writer = record {
  first = nothing;
  stop_at_first = false;
  stop = false;
  finished_core_task = some "database writer";
  second = none;
  stop_at_second = false;
  last = nothing;
  stop_at_last = false;
}

abbrev both_stopped : Remains
both_stopped = record {
  late_exits = writer (ok tt) ∷ monitor (ok tt) ∷ [];
  writer_join = none;
  monitor_join = none;
  database = none;
}

-- The monitor fails in the shutdown, then the database.
abbrev two_failures : Remains
two_failures = record {
  late_exits = writer (ok tt) ∷ monitor (err "smart") ∷ [];
  writer_join = none;
  monitor_join = none;
  database = some (database_error "disk full");
}

stops_cleanly : supervise_and_stop (idle ∷ idle ∷ stopping ∷ []) both_stopped ≡ some (ok tt)
unfolding supervise_and_stop end_of_daemon supervise_long_tasks decide_poll decide_rest decide_task
    decide_received clean shut_down retain_late retain into_failure result_of
stops_cleanly = refl

keeps_the_first :
    supervise_and_stop (idle ∷ lost_writer ∷ []) two_failures
    ≡ some (err (exited_early "database writer"))
unfolding supervise_and_stop end_of_daemon supervise_long_tasks decide_poll decide_rest decide_task
    decide_finished decide_received failed shut_down retain_late retain retain_first_failure
    into_failure result_of
keeps_the_first = refl

supervise_and_stop-IsExplained_example :
    IsExplained
      (idle ∷ stopping ∷ [])
      two_failures
      (supervise_and_stop (idle ∷ stopping ∷ []) two_failures)
supervise_and_stop-IsExplained_example =
    supervise_and_stop-IsExplained (idle ∷ stopping ∷ []) two_failures
