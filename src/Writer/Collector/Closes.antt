-- ===== src/Writer/Collector/Closes.antt =====
-- What a bucket that a scan closes is made of.
use nvme_disk_mon.Common.{◌≡◌, List, none, some, true, ◌⊎◌, arith}
use nvme_disk_mon.Common.Int.{ℤ}
use nvme_disk_mon.Writer.Types.{ScanOutcome, CollectorState, ClosedBucket, cgroup_identity_changed}
use nvme_disk_mon.Writer.Marks.{
  WriteDelta, bucket_start, mark_all, mark_resolved_incomplete, resolve_scan_incomplete,
}
use nvme_disk_mon.Writer.Deltas.{calculate_deltas, accumulate}
use nvme_disk_mon.Writer.Close.{close_current_bucket}
use nvme_disk_mon.Writer.Collector.{mark_gap, close_and_open, process_scan}

-- The state and the deltas behind a scan, before the test on its bucket.
abbrev pub scanned : CollectorState → ScanOutcome → CollectorState × List WriteDelta
scanned s outcome =
    calculate_deltas (mark_resolved_incomplete s (resolve_scan_incomplete s outcome.incomplete))
      outcome.observations

abbrev pub accumulated : CollectorState → ScanOutcome → CollectorState
accumulated s outcome = accumulate (scanned s outcome).0 (scanned s outcome).1

-- The state in which the open bucket closes.
abbrev pub closing : CollectorState → ℤ → ScanOutcome → CollectorState
closing s now_ms outcome =
    let a = accumulated s outcome in mark_gap a a.current_bucket (bucket_start now_ms)

pub process_scan-closes :
    (s : CollectorState) (now_ms : ℤ) (outcome : ScanOutcome) (closed : ClosedBucket)
    → (process_scan s now_ms outcome).1 ≡ some closed
    → closed ≡ (close_current_bucket (closing s now_ms outcome)).1
unfolding process_scan close_and_open
process_scan-closes s now_ms outcome closed e = ground arith

-- A scan that closes no bucket has joined the open one, or has gone back in time.
pub process_scan-stays :
    (s : CollectorState) (now_ms : ℤ) (outcome : ScanOutcome)
    → (process_scan s now_ms outcome).1 ≡ none
    → ((process_scan s now_ms outcome).0 ≡ record (accumulated s outcome) { initialized = true })
      ⊎ ((process_scan s now_ms outcome).0
          ≡ record (mark_all (scanned s outcome).0 cgroup_identity_changed) { initialized = true })
unfolding process_scan close_and_open
process_scan-stays s now_ms outcome e = ground arith
