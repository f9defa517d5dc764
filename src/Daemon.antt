-- ===== src/Daemon.antt =====
-- The end of `run_daemon` of src/main.rs: the supervision of the long-running tasks and the shutdown.
-- What the loop reads from outside (the channel, the flag to stop, the handles of the threads) is a
-- `Poll` for each iteration.
pub mod Supervised
mod Tests
use Prim.Native.String.{String}
use nvme_disk_mon.Common.{
  Bool, true, false, not, List, [], ◌∷◌, Option, none, some, Result, ok, err, if◌then◌else◌,
}

-- An error of a task, or one of those that the supervision makes.
pub data Failure : Type 0 where
  task_error : String → Failure
  exited_early : String → Failure
  channel_closed : Failure
  panicked : String → Failure
  database_error : String → Failure

pub data TaskExit : Type 0 where
  writer monitor : Result (Unit {0}) String → TaskExit

unfoldable pub into_failure : TaskExit → Bool → Option Failure
into_failure (writer (err error)) shutdown_requested = some (task_error error)
into_failure (monitor (err error)) shutdown_requested = some (task_error error)
into_failure (writer (ok _)) shutdown_requested =
    if shutdown_requested then none else some (exited_early "writer collector")
into_failure (monitor (ok _)) shutdown_requested =
    if shutdown_requested then none else some (exited_early "SMART monitor")

-- `try_recv` and `recv_timeout`: `nothing` is `Empty` or `Timeout`
pub data Received : Type 0 where
  exit : TaskExit → Received
  nothing disconnected : Received

-- One iteration; the flag is loaded at each use anew.
pub record Poll : Type 0 where
  pub first : Received
  pub stop_at_first : Bool
  pub stop : Bool
  pub finished_core_task : Option String
  pub second : Option TaskExit
  pub stop_at_second : Bool
  pub last : Received
  pub stop_at_last : Bool

-- What the supervision returns, and whether it has stored the flag to stop.
pub record Decision : Type 0 where
  pub failure : Option Failure
  pub stores_stop : Bool

unfoldable pub clean : Decision
clean = record { failure = none; stores_stop = false }

unfoldable pub failed : Failure → Decision
failed error = record { failure = some error; stores_stop = true }

unfoldable pub decide_failure : Option Failure → Decision
unfolding clean failed
decide_failure none = clean
decide_failure (some error) = failed error

unfoldable pub decide_exit : TaskExit → Bool → Decision
unfolding into_failure decide_failure
decide_exit e shutdown_requested = decide_failure (into_failure e shutdown_requested)

unfoldable pub decide_closed : Bool → Decision
unfolding clean failed
decide_closed shutdown_requested = if shutdown_requested then clean else failed channel_closed

-- The arms of a `match` on the channel; `none` where the iteration goes on
unfoldable pub decide_received : Received → Bool → Option Decision
unfolding decide_exit decide_closed
decide_received (exit e) shutdown_requested = some (decide_exit e shutdown_requested)
decide_received nothing shutdown_requested = none
decide_received disconnected shutdown_requested = some (decide_closed shutdown_requested)

-- A task has finished: its exit may have come in since.
unfoldable pub decide_finished : String → Option TaskExit → Bool → Decision
unfolding decide_exit failed
decide_finished task_name (some e) shutdown_requested = decide_exit e shutdown_requested
decide_finished task_name none shutdown_requested = failed (exited_early task_name)

unfoldable pub decide_task : Poll → Option String → Option Decision
unfolding decide_finished decide_received
decide_task poll (some task_name) = some (decide_finished task_name poll.second poll.stop_at_second)
decide_task poll none = decide_received poll.last poll.stop_at_last

-- An iteration behind the first look at the channel
unfoldable pub decide_rest : Poll → Option Decision → Option Decision
unfolding clean decide_task
decide_rest poll (some decision) = some decision
decide_rest poll none = if poll.stop then some clean else decide_task poll poll.finished_core_task

unfoldable pub decide_poll : Poll → Option Decision
unfolding decide_rest decide_received
decide_poll poll = decide_rest poll (decide_received poll.first poll.stop_at_first)

-- `none` where the tasks still run behind these iterations
unfoldable pub supervise_long_tasks : List Poll → Option Decision
unfolding decide_poll
supervise_long_tasks [] = none
supervise_long_tasks (poll ∷ polls) = elim (decide_poll poll) [
  | some decision ↦ some decision
  | none ↦ supervise_long_tasks polls
]

unfoldable pub retain_first_failure : Option Failure → Failure → Option Failure
retain_first_failure none candidate = some candidate
retain_first_failure (some error) candidate = some error

-- `if let Some(error) = .. { retain_first_failure(..) }`
unfoldable pub retain : Option Failure → Option Failure → Option Failure
unfolding retain_first_failure
retain first_failure none = first_failure
retain first_failure (some candidate) = retain_first_failure first_failure candidate

unfoldable pub retain_late : Option Failure → List TaskExit → Option Failure
unfolding retain into_failure
retain_late first_failure [] = first_failure
retain_late first_failure (e ∷ exits) =
    retain_late (retain first_failure (into_failure e true)) exits

unfoldable pub result_of : Option Failure → Result (Unit {0}) Failure
result_of none = ok tt
result_of (some error) = err error

-- What the tasks and the database leave behind when they are joined.
pub record Remains : Type 0 where
  pub late_exits : List TaskExit
  pub writer_join : Option Failure
  pub monitor_join : Option Failure
  pub database : Option Failure

unfoldable pub shut_down : Option Failure → Remains → Result (Unit {0}) Failure
unfolding retain_late retain result_of
shut_down first_failure remains = result_of (
    retain
      (retain (retain (retain_late first_failure remains.late_exits) remains.writer_join)
        remains.monitor_join)
      remains.database)

unfoldable pub end_of_daemon : Remains → Option Decision → Option (Result (Unit {0}) Failure)
unfolding shut_down
end_of_daemon remains none = none
end_of_daemon remains (some decision) = some (shut_down decision.failure remains)

unfoldable pub supervise_and_stop : List Poll → Remains → Option (Result (Unit {0}) Failure)
unfolding supervise_long_tasks end_of_daemon
supervise_and_stop polls remains = end_of_daemon remains (supervise_long_tasks polls)
