-- ===== src/Writer/Types.antt =====
-- The data of src/writer/collector.rs.
use nvme_disk_mon.Common.{ℕ, Bool, List, [], Option, none, some, Bytes, ℕ_discrete, Key}
use nvme_disk_mon.Common.Int.{ℤ}
use nvme_disk_mon.Database.Batch.{WriterBucketBatch}

pub record DeviceNumber : Type 0 where
  pub major : ℕ
  pub minor : ℕ

unfoldable pub DeviceNumber-discrete : Discrete DeviceNumber
unfolding ℕ_discrete
DeviceNumber-discrete = hlevel ℕ_discrete

instance abbrev pub device_number_key : Key DeviceNumber
device_number_key = record { same = DeviceNumber-discrete }

pub record MonitoredDevice : Type 0 where
  pub hash_id : Bytes
  pub configured_path : Bytes
  pub number : DeviceNumber

pub data BucketIncompleteReason : Type 0 where
  cgroup_enumeration_failed io_stat_read_failed io_stat_parse_failed : BucketIncompleteReason
  cgroup_identity_changed counter_reset sampling_deadline_missed : BucketIncompleteReason
  accumulator_overflow device_mapping_lost database_backpressure : BucketIncompleteReason

pub record CgroupBirthTime : Type 0 where
  pub seconds : ℤ
  pub nanoseconds : ℕ

pub record CgroupInstanceId : Type 0 where
  pub device : ℕ
  pub inode : ℕ
  pub birth_time : Option CgroupBirthTime

unfoldable pub CgroupInstanceId-discrete : Discrete CgroupInstanceId
unfolding ℕ_discrete
CgroupInstanceId-discrete = hlevel ℕ_discrete

instance abbrev pub cgroup_instance_key : Key CgroupInstanceId
cgroup_instance_key = record { same = CgroupInstanceId-discrete }

pub record CounterKey : Type 0 where
  pub path : Bytes
  pub cgroup_instance : CgroupInstanceId
  pub device_hash_id : Bytes
  pub device : DeviceNumber

unfoldable pub CounterKey-discrete : Discrete CounterKey
unfolding ℕ_discrete
CounterKey-discrete = hlevel ℕ_discrete

instance abbrev pub counter_key : Key CounterKey
counter_key = record { same = CounterKey-discrete }

-- The key of an accumulated amount: a device's hash and a workload.
unfoldable pub AmountKey-discrete : Discrete (Bytes × Bytes)
unfolding ℕ_discrete
AmountKey-discrete = hlevel ℕ_discrete

instance abbrev pub amount_key : Key (Bytes × Bytes)
amount_key = record { same = AmountKey-discrete }

pub record Observation : Type 0 where
  pub path : Bytes
  pub cgroup_instance : CgroupInstanceId
  pub workload_name : Bytes
  pub counters : List (DeviceNumber × ℕ)

pub record CgroupScanFailure : Type 0 where
  pub path : Bytes
  pub cgroup_instance : Option CgroupInstanceId
  pub observed_devices : List DeviceNumber
  pub reason : BucketIncompleteReason

pub record ScanIncomplete : Type 0 where
  pub global_reason : Option BucketIncompleteReason
  pub device_reasons : List (DeviceNumber × BucketIncompleteReason)
  pub cgroup_failures : List CgroupScanFailure

pub record ScanOutcome : Type 0 where
  pub observations : List Observation
  pub incomplete : ScanIncomplete

-- `ScanIncomplete::default()`
abbrev pub default_incomplete : ScanIncomplete
default_incomplete = record { global_reason = none; device_reasons = []; cgroup_failures = [] }

-- `ScanOutcome::global_failure`
unfoldable pub global_failure : BucketIncompleteReason → ScanOutcome
global_failure reason = record {
  observations = [];
  incomplete = record default_incomplete { global_reason = some reason };
}

pub record IncompleteDeviceBucket : Type 0 where
  pub device_hash_id : Bytes
  pub configured_path : Bytes
  pub reason : BucketIncompleteReason

pub record ClosedBucket : Type 0 where
  pub timestamp : ℤ
  pub batch : Option WriterBucketBatch
  pub complete_devices : List Bytes
  pub incomplete_devices : List IncompleteDeviceBucket
  pub startup_bucket : Bool

pub record CollectorState : Type 0 where
  pub devices : List MonitoredDevice
  pub current_bucket : ℤ
  pub initialized : Bool
  pub baselines : List (CounterKey × (Bytes × ℕ))
  pub seen_instances : List CounterKey
  pub currently_mapped : List Bytes
  pub amounts : List ((Bytes × Bytes) × ℕ)
  pub incomplete : List (Bytes × BucketIncompleteReason)
  pub startup_bucket : Bool
