-- ===== src/Writer/Task.antt =====
-- One iteration of the loop of `WriterCollector::run` of src/writer/collector.rs. The mappings, the
-- scan, the clock and the answer of the database are a `Tick`.
pub mod Reports
use nvme_disk_mon.Common.{
  Bool, true, false, List, Option, none, some, Bytes, Result, ok, err, if◌then◌else◌,
}
use nvme_disk_mon.Common.Int.{ℤ, pos, ◌+ℤ◌}
use nvme_disk_mon.Database.Batch.{WriterBucketBatch}
use nvme_disk_mon.Database.Errors.{DbWriteError, ErrorSource}
use nvme_disk_mon.Writer.Types.{
  MonitoredDevice, ScanOutcome, ClosedBucket, CollectorState, global_failure,
  cgroup_enumeration_failed, sampling_deadline_missed, database_backpressure,
}
use nvme_disk_mon.Writer.Marks.{bucket_milliseconds, mark_all, lose_all, update_device_mappings}
use nvme_disk_mon.Writer.Collector.{process_scan}
use nvme_disk_mon.Writer.Boundary.{WriterBoundaryReport}

-- `late` is `scan_started > deadline + SAMPLE_PERIOD`, `slow` is `submit_elapsed > SAMPLE_PERIOD`, and
-- `answer` is `submit_until_stopped`, `ok false` where the task was stopped before.
pub record Tick : Type 0 where
  pub mapped_devices : List MonitoredDevice
  pub mapping_lost : List Bytes
  pub now_ms : ℤ
  pub scan : Result ScanOutcome ErrorSource
  pub late : Bool
  pub stopped : Bool
  pub answer : WriterBucketBatch → Result Bool DbWriteError
  pub slow : Bool

pub data Flow : Type 0 where
  continue_loop break_loop : Flow
  fail : DbWriteError → Flow

-- `report` is what is published to the boundary tracker.
pub record Ticked : Type 0 where
  pub state : CollectorState
  pub flow : Flow
  pub report : Option WriterBoundaryReport

unfoldable pub unreported : CollectorState → Flow → Ticked
unreported s flow = record { state = s; flow = flow; report = none }

unfoldable pub scan_outcome : Result ScanOutcome ErrorSource → ScanOutcome
unfolding global_failure
scan_outcome (ok outcome) = outcome
scan_outcome (err _) = global_failure cgroup_enumeration_failed

unfoldable pub mark_if : Bool → CollectorState → CollectorState
mark_if true s = mark_all s sampling_deadline_missed
mark_if false s = s

unfoldable pub mark_slow : Bool → CollectorState → CollectorState
mark_slow true s = mark_all s database_backpressure
mark_slow false s = s

-- The part behind a submission that the database has accepted, or that was not needed.
unfoldable pub publish_closed : Tick → CollectorState → ClosedBucket → Ticked
unfolding ◌+ℤ◌ mark_slow
publish_closed t s closed = record {
  state = mark_slow t.slow s;
  flow = continue_loop;
  report = some (record {
    end_timestamp = closed.timestamp +ℤ pos bucket_milliseconds;
    complete_devices = closed.complete_devices;
  });
}

unfoldable pub after_submit :
    Tick → CollectorState → ClosedBucket → Result Bool DbWriteError → Ticked
unfolding unreported publish_closed
after_submit t s closed (err error) = unreported s (fail error)
after_submit t s closed (ok false) = unreported s break_loop
after_submit t s closed (ok true) = publish_closed t s closed

unfoldable pub submit_closed :
    Tick → CollectorState → ClosedBucket → Option WriterBucketBatch → Ticked
unfolding publish_closed after_submit
submit_closed t s closed none = publish_closed t s closed
submit_closed t s closed (some batch) = after_submit t s closed (t.answer batch)

-- `if let Some(closed) = state.process_scan(...)`
unfoldable pub handle_closed : Tick → CollectorState → Option ClosedBucket → Ticked
unfolding unreported submit_closed lose_all
handle_closed t s none = unreported s continue_loop
handle_closed t s (some closed) =
    let marked = record s { incomplete = lose_all t.mapping_lost s.incomplete } in
    if t.stopped then unreported marked break_loop else submit_closed t marked closed closed.batch

-- The state that the scan finds.
unfoldable pub prepared : Tick → CollectorState → CollectorState
unfolding mark_if update_device_mappings
prepared t s = mark_if t.late (update_device_mappings s t.mapped_devices t.mapping_lost)

unfoldable pub tick : Tick → CollectorState → Ticked
unfolding handle_closed scan_outcome
tick t s =
    let (scanned, closed) = process_scan (prepared t s) t.now_ms (scan_outcome t.scan) in
    handle_closed t scanned closed
