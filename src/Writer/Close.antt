-- ===== src/Writer/Close.antt =====
-- `CollectorState::close_current_bucket` of src/writer/collector.rs.
pub mod Complete
pub mod Batch
use nvme_disk_mon.Common.{
  ℕ, Bool, true, false, not, ◌||◌, List, [], ◌∷◌, ◌++◌, Option, none, some, Bytes, bytes_key, get,
  insert, insert_set, eqb, ltb, ◌==◌, if◌then◌else◌, is_empty,
}
use nvme_disk_mon.Common.Int.{i64_of_ℕ}
use nvme_disk_mon.Database.Batch.{WriterAmount, CompleteDeviceBucket, WriterBucketBatch}
use nvme_disk_mon.Writer.Types.{
  MonitoredDevice, BucketIncompleteReason, ClosedBucket, IncompleteDeviceBucket, CollectorState,
  accumulator_overflow,
}
use nvme_disk_mon.Writer.Marks.{Reasons}
use nvme_disk_mon.Writer.Deltas.{Amounts}

pub record CloseLoop : Type 0 where
  pub incomplete : Reasons
  pub complete_devices : List Bytes
  pub incomplete_devices : List IncompleteDeviceBucket
  pub device_buckets : List CompleteDeviceBucket

-- The loop over `self.amounts` for one device; `none` is `out_of_range`.
unfoldable pub device_amounts : Bytes → Amounts → Option (List WriterAmount)
device_amounts hash_id [] = some []
device_amounts hash_id (((amount_hash_id, workload_name), amount) ∷ amounts) =
    let rest = device_amounts hash_id amounts in
    if not (eqb amount_hash_id hash_id) || amount == 0 then rest else elim (i64_of_ℕ amount) [
      | none ↦ none
      | some write_amount_bytes ↦ elim rest [
        | none ↦ none
        | some found ↦ some (
            record { workload_name = workload_name; write_amount_bytes = write_amount_bytes }
            ∷ found)
      ]
    ]

-- The order of `String`: by bytes, a prefix first.
unfoldable pub le_bytes : Bytes → Bytes → Bool
le_bytes [] right = true
le_bytes (a ∷ left) [] = false
le_bytes (a ∷ left) (b ∷ right) = ltb a b || (if a == b then le_bytes left right else false)

unfoldable pub insert_sorted : WriterAmount → List WriterAmount → List WriterAmount
insert_sorted a [] = a ∷ []
insert_sorted a (b ∷ amounts) =
    if le_bytes a.workload_name b.workload_name
    then a ∷ b ∷ amounts
    else b ∷ insert_sorted a amounts

-- `amounts.sort_by(|left, right| left.workload_name.cmp(&right.workload_name))`
unfoldable pub sort_by_workload : List WriterAmount → List WriterAmount
sort_by_workload [] = []
sort_by_workload (a ∷ amounts) = insert_sorted a (sort_by_workload amounts)

unfoldable pub report_incomplete : MonitoredDevice → BucketIncompleteReason → IncompleteDeviceBucket
report_incomplete device reason = record {
  device_hash_id = device.hash_id;
  configured_path = device.configured_path;
  reason = reason;
}

-- One device without a reason: complete, or out of the range of i64.
unfoldable pub close_amounts : MonitoredDevice → Option (List WriterAmount) → CloseLoop → CloseLoop
close_amounts device none l = record l {
  incomplete = insert l.incomplete device.hash_id accumulator_overflow;
  incomplete_devices = l.incomplete_devices ++ report_incomplete device accumulator_overflow ∷ [];
}
close_amounts device (some amounts) l = record l {
  complete_devices = insert_set l.complete_devices device.hash_id;
  device_buckets =
      l.device_buckets
      ++ record { device_hash_id = device.hash_id; amounts = sort_by_workload amounts } ∷ [];
}

unfoldable pub close_device : Amounts → MonitoredDevice → CloseLoop → CloseLoop
close_device amounts device l = elim (get l.incomplete device.hash_id) [
  | some reason ↦ record l {
    incomplete_devices = l.incomplete_devices ++ report_incomplete device reason ∷ [];
  }
  | none ↦ close_amounts device (device_amounts device.hash_id amounts) l
]

unfoldable pub close_devices : Amounts → List MonitoredDevice → CloseLoop → CloseLoop
close_devices amounts [] l = l
close_devices amounts (device ∷ devices) l =
    close_devices amounts devices (close_device amounts device l)

abbrev pub close_start : CollectorState → CloseLoop
close_start s = record {
  incomplete = s.incomplete;
  complete_devices = [];
  incomplete_devices = [];
  device_buckets = [];
}

unfoldable pub close_current_bucket : CollectorState → CollectorState × ClosedBucket
close_current_bucket s =
    let l = close_devices s.amounts s.devices (close_start s) in
    (
      record s { incomplete = l.incomplete; startup_bucket = false },
      record {
        timestamp = s.current_bucket;
        batch =
            if is_empty l.device_buckets
            then none
            else some (record { timestamp = s.current_bucket; devices = l.device_buckets });
        complete_devices = l.complete_devices;
        incomplete_devices = l.incomplete_devices;
        startup_bucket = s.startup_bucket;
      },
    )
