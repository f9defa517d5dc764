-- ===== src/Writer/Tests.antt =====
-- Runs of the collector on small inputs, and the theorems at them.
use nvme_disk_mon.Common.{
  ℕ, ◌≡◌, ◌↔◌, refl, true, false, [], ◌∷◌, none, some, Bytes, Bytes-discrete, bytes, bytes_key,
  ℕ_discrete, ok, get, insert, or_insert, contains, insert_set, starts_with, strip_prefix,
  is_ascii_digit, is_ascii_control,
}
use nvme_disk_mon.Common.Int.{pos, ◌-ℤ◌, ◌+ℤ◌, rem_euclid}
use nvme_disk_mon.Database.Batch.{WriterBucketBatch}
use nvme_disk_mon.Database.Validate.{
  is_hex_digit, is_valid_hash_id, is_valid_workload_name, is_unaligned, validate_writer_bucket,
  validate_devices, validate_amounts, is_not_positive,
}
use nvme_disk_mon.Database.Validate.Accepts.{IsGoodBucket, validate_writer_bucket_iff}
use nvme_disk_mon.Writer.Types.{
  DeviceNumber-discrete, MonitoredDevice, CgroupInstanceId, CgroupInstanceId-discrete, CounterKey,
  CounterKey-discrete, AmountKey-discrete, Observation, ScanOutcome, CollectorState, ClosedBucket,
  default_incomplete, device_number_key, counter_key, amount_key, cgroup_identity_changed,
}
use nvme_disk_mon.Writer.Marks.{
  bucket_start, mark_all, or_insert_all, mark_resolved_incomplete, or_insert_reasons,
  resolve_scan_incomplete, resolve_global, resolve_device_reasons, resolve_failures, find_hash_id,
}
use nvme_disk_mon.Writer.Deltas.{
  delta_of, mark_reason, push_delta, observe_counter, observe_device, observe_devices, observe_all,
  mark_missing, mark_all_missing, calculate_deltas, store_amount, accumulate_delta, accumulate,
}
use nvme_disk_mon.Writer.Marks.{update_device_mappings, lose_all}
use nvme_disk_mon.Writer.Boundary.{
  WriterBoundaryReport, stopped, woken, is_before, found, is_complete_in, wait_until_processed,
  IsSeen, wait_until_processed-some,
}
use nvme_disk_mon.Writer.Task.{
  Tick, tick, prepared, mark_if, scan_outcome, handle_closed, submit_closed, after_submit,
  publish_closed,
}
use nvme_disk_mon.Writer.Task.Reports.{IsStored, tick-IsStored}
use nvme_disk_mon.Writer.Close.{
  device_amounts, le_bytes, insert_sorted, sort_by_workload, report_incomplete, close_amounts,
  close_device, close_devices, close_current_bucket,
}
use nvme_disk_mon.Writer.Close.Complete.{is_complete, contains-complete_devices}
use nvme_disk_mon.Writer.Close.Batch.{IsSound}
use nvme_disk_mon.Writer.Collector.{
  gap_reasons, mark_gap, open_bucket, close_and_open, process_scan,
}
use nvme_disk_mon.Writer.Collector.Sound.{process_scan-IsSound, process_scan-validate_writer_bucket}
use nvme_disk_mon.Writer.Collector.Marked.{get-process_scan, contains-process_scan}
use nvme_disk_mon.Writer.Collector.Ledger.{Balances, process_scan-Balances}

-- Opens the collector for a run.
scan_code : Unit {0}
unfolding Bytes-discrete ℕ_discrete DeviceNumber-discrete CgroupInstanceId-discrete
    CounterKey-discrete AmountKey-discrete get insert or_insert contains insert_set ◌-ℤ◌ rem_euclid
    bucket_start mark_all or_insert_all mark_resolved_incomplete or_insert_reasons
    resolve_scan_incomplete resolve_global resolve_device_reasons resolve_failures find_hash_id
    delta_of mark_reason push_delta observe_counter observe_device observe_devices observe_all
    mark_missing mark_all_missing calculate_deltas store_amount accumulate_delta accumulate
    device_amounts le_bytes insert_sorted sort_by_workload report_incomplete close_amounts
    close_device close_devices close_current_bucket gap_reasons mark_gap open_bucket close_and_open
    process_scan
scan_code = tt

-- Opens the checks of the database writer.
check_code : Unit {0}
unfolding Bytes-discrete ℕ_discrete contains starts_with strip_prefix is_ascii_digit
    is_ascii_control is_hex_digit is_valid_hash_id is_valid_workload_name is_unaligned
    validate_writer_bucket validate_devices validate_amounts is_not_positive
check_code = tt

abbrev hash_a : Bytes
hash_a = bytes "aaaaaaaaaaaaaaaaaaaaaaaaaaaaaaaaaaaaaaaaaaaaaaaaaaaaaaaaaaaaaaaa"

abbrev device_a : MonitoredDevice
device_a = record {
  hash_id = hash_a;
  configured_path = bytes "/dev/disk/by-id/test-a";
  number = record { major = 259; minor = 0 };
}

abbrev group : CgroupInstanceId
group = record { device = 1; inode = 2; birth_time = none }

abbrev reading_of : ℕ → Observation
reading_of n = record {
  path = bytes "/sys/fs/cgroup/a";
  cgroup_instance = group;
  workload_name = bytes "cgroup:/a";
  counters = ((record { major = 259; minor = 0 }, n) ∷ []);
}

abbrev outcome_of : ℕ → ScanOutcome
outcome_of n = record { observations = reading_of n ∷ []; incomplete = default_incomplete }

abbrev key_a : CounterKey
key_a = record {
  path = bytes "/sys/fs/cgroup/a";
  cgroup_instance = group;
  device_hash_id = hash_a;
  device = record { major = 259; minor = 0 };
}

-- An open bucket in which the counter stood at 10.
abbrev open_state : CollectorState
open_state = record {
  devices = device_a ∷ [];
  current_bucket = pos 120_000;
  initialized = true;
  baselines = (key_a, (bytes "cgroup:/a", 10)) ∷ [];
  seen_instances = key_a ∷ [];
  currently_mapped = hash_a ∷ [];
  amounts = [];
  incomplete = [];
  startup_bucket = false;
}

abbrev batch_a : WriterBucketBatch
batch_a = record {
  timestamp = pos 120_000;
  devices =
      record {
        device_hash_id = hash_a;
        amounts = record { workload_name = bytes "cgroup:/a"; write_amount_bytes = pos 15 } ∷ [];
      }
      ∷ [];
}

abbrev closed_a : ClosedBucket
closed_a = record {
  timestamp = pos 120_000;
  batch = some batch_a;
  complete_devices = hash_a ∷ [];
  incomplete_devices = [];
  startup_bucket = false;
}

scan_closes : (process_scan open_state (pos 180_500) (outcome_of 25)).1 ≡ some closed_a
unfolding scan_code
scan_closes = refl

open_state-IsSound : IsSound (hash_a ∷ []) open_state
unfolding check_code
open_state-IsSound = record {
  known = (record { safe = refl; known = refl }, tt);
  distinct = (refl, tt);
  aligned = refl;
  keys_distinct = tt;
  names = tt;
}

process_scan-validate_writer_bucket_example : validate_writer_bucket 7 batch_a (hash_a ∷ []) ≡ ok tt
unfolding check_code
process_scan-validate_writer_bucket_example =
    process_scan-validate_writer_bucket (hash_a ∷ []) open_state (outcome_of 25) 180_500 7 closed_a
      batch_a (record { not_reserved = refl; named = refl }, tt) open_state-IsSound scan_closes refl

process_scan-IsSound_example :
    IsSound (hash_a ∷ []) (process_scan open_state (pos 180_500) (outcome_of 25)).0
unfolding check_code
process_scan-IsSound_example =
    process_scan-IsSound (hash_a ∷ []) open_state (outcome_of 25) 180_500
      (record { not_reserved = refl; named = refl }, tt) open_state-IsSound

-- The counter goes from 10 to 25 inside the minute.
process_scan-Balances_example :
    Balances open_state
      (outcome_of 25)
      hash_a
      (process_scan open_state (pos 125_000) (outcome_of 25)).0
unfolding scan_code
process_scan-Balances_example =
    process_scan-Balances open_state (outcome_of 25) hash_a (pos 125_000) refl refl (refl, tt)
      (refl, tt) refl refl

-- The counter falls from 10 to 5.
abbrev reset_state : CollectorState
reset_state = record open_state { incomplete = (hash_a, cgroup_identity_changed) ∷ [] }

get-process_scan_example :
    get (process_scan reset_state (pos 125_000) (outcome_of 5)).0.incomplete hash_a
    ≡ some cgroup_identity_changed
unfolding scan_code
get-process_scan_example =
    get-process_scan hash_a cgroup_identity_changed reset_state (pos 125_000) (outcome_of 5) refl
      refl

abbrev closed_reset : ClosedBucket
closed_reset = record {
  timestamp = pos 120_000;
  batch = none;
  complete_devices = [];
  incomplete_devices =
      record {
        device_hash_id = hash_a;
        configured_path = bytes "/dev/disk/by-id/test-a";
        reason = cgroup_identity_changed;
      }
      ∷ [];
  startup_bucket = false;
}

contains-process_scan_example : contains closed_reset.complete_devices hash_a ≡ false
unfolding scan_code
contains-process_scan_example =
    contains-process_scan hash_a cgroup_identity_changed reset_state (pos 180_500) (outcome_of 5)
      closed_reset refl refl

contains-complete_devices_example :
    contains (close_current_bucket open_state).1.complete_devices hash_a
    ≡ is_complete open_state hash_a
contains-complete_devices_example = contains-complete_devices open_state hash_a

validate_writer_bucket_iff_example :
    (validate_writer_bucket 7 batch_a (hash_a ∷ []) ≡ ok tt) ↔ IsGoodBucket (hash_a ∷ []) batch_a
validate_writer_bucket_iff_example = validate_writer_bucket_iff 7 batch_a (hash_a ∷ [])

-- An iteration that closes the bucket, whose batch the database accepts.
abbrev tick_a : Tick
tick_a = record {
  mapped_devices = device_a ∷ [];
  mapping_lost = [];
  now_ms = pos 180_500;
  scan = ok (outcome_of 25);
  late = false;
  stopped = false;
  answer = λ _. ok true;
  slow = false;
}

abbrev report_a : WriterBoundaryReport
report_a = record { end_timestamp = pos 180_000; complete_devices = hash_a ∷ [] }

tick_reports : (tick tick_a open_state).report ≡ some report_a
unfolding scan_code tick prepared mark_if update_device_mappings lose_all scan_outcome handle_closed
    submit_closed after_submit publish_closed ◌+ℤ◌
tick_reports = refl

tick-IsStored_example : IsStored tick_a open_state report_a
tick-IsStored_example = tick-IsStored tick_a open_state report_a tick_reports

waited :
    wait_until_processed (pos 180_000) hash_a none (woken (some report_a) stopped) ≡ ok (some true)
unfolding scan_code wait_until_processed is_before found is_complete_in
waited = refl

wait_until_processed-some_example :
    (report : WriterBoundaryReport) × IsSeen none (woken (some report_a) stopped) report
    × (report.end_timestamp ≡ pos 180_000)
    × (true ≡ is_complete_in report hash_a)
wait_until_processed-some_example =
    wait_until_processed-some (pos 180_000) hash_a none (woken (some report_a) stopped) true waited
