-- ===== src/Writer/Collector.antt =====
-- `CollectorState::process_scan` of src/writer/collector.rs: a scan joins the open bucket, or ends it.
-- Times are exact integers: the source subtracts two times of at least 0, which cannot overflow.
pub mod Sound
pub mod Marked
pub mod Closes
pub mod Ledger
use nvme_disk_mon.Common.{true, [], Option, none, some, if◌then◌else◌}
use nvme_disk_mon.Common.Int.{ℤ, pos, ◌-ℤ◌, ltb_ℤ, eqb_ℤ}
use nvme_disk_mon.Writer.Types.{
  ScanOutcome, ClosedBucket, CollectorState, cgroup_identity_changed, sampling_deadline_missed,
}
use nvme_disk_mon.Writer.Marks.{
  bucket_start, bucket_milliseconds, Reasons, mark_all, mark_resolved_incomplete,
  resolve_scan_incomplete,
}
use nvme_disk_mon.Writer.Deltas.{calculate_deltas, accumulate}
use nvme_disk_mon.Writer.Close.{close_current_bucket}

-- `if later - earlier > BUCKET_MILLISECONDS { self.mark_all(SamplingDeadlineMissed) }`
unfoldable pub gap_reasons : CollectorState → ℤ → ℤ → Reasons
unfolding mark_all
gap_reasons s earlier later =
    if ltb_ℤ (pos bucket_milliseconds) (later -ℤ earlier)
    then (mark_all s sampling_deadline_missed).incomplete
    else s.incomplete

unfoldable pub mark_gap : CollectorState → ℤ → ℤ → CollectorState
mark_gap s earlier later = record s { incomplete = gap_reasons s earlier later }

-- The next bucket, with the gaps that the scan leaves in it.
unfoldable pub open_bucket : CollectorState → ℤ → ℤ → Reasons → CollectorState
open_bucket s closed_timestamp next_bucket scan_incomplete =
    let opened =
      mark_gap
        (mark_resolved_incomplete
          (record s { current_bucket = next_bucket; amounts = []; incomplete = [] })
          scan_incomplete)
        closed_timestamp next_bucket in
    record opened { initialized = true }

-- The part of `process_scan` behind its two early returns.
unfoldable pub close_and_open : CollectorState → ℤ → Reasons → CollectorState × Option ClosedBucket
close_and_open s next_bucket scan_incomplete =
    let (s', closed) = close_current_bucket (mark_gap s s.current_bucket next_bucket) in
    (open_bucket s' closed.timestamp next_bucket scan_incomplete, some closed)

unfoldable pub process_scan :
    CollectorState → ℤ → ScanOutcome → CollectorState × Option ClosedBucket
process_scan s now_ms outcome =
    let next_bucket = bucket_start now_ms in
    let scan_incomplete = resolve_scan_incomplete s outcome.incomplete in
    let (scanned, deltas) =
      calculate_deltas (mark_resolved_incomplete s scan_incomplete) outcome.observations in
    if eqb_ℤ next_bucket s.current_bucket
    then (record (accumulate scanned deltas) { initialized = true }, none)
    else if ltb_ℤ next_bucket s.current_bucket
    then (record (mark_all scanned cgroup_identity_changed) { initialized = true }, none)
    else close_and_open (accumulate scanned deltas) next_bucket scan_incomplete
