-- ===== src/Writer/Marks.antt =====
-- `CollectorState` of src/writer/collector.rs, first part: the open bucket, and the reasons for which
-- it is incomplete. Each method returns the new state.
use nvme_disk_mon.Common.{
  ℕ, Bool, true, false, ◌&&◌, List, [], ◌∷◌, map, Option, none, some, Bytes, bytes_key, get, insert,
  or_insert, eqb, if◌then◌else◌,
}
use nvme_disk_mon.Common.Int.{ℤ, pos, ◌-ℤ◌, rem_euclid}
use nvme_disk_mon.Writer.Types.{
  DeviceNumber, MonitoredDevice, BucketIncompleteReason, CounterKey, ScanIncomplete,
  CgroupInstanceId, CgroupScanFailure, CollectorState, cgroup_identity_changed, device_mapping_lost,
  device_number_key, cgroup_instance_key, counter_key, amount_key,
}

abbrev pub bucket_milliseconds : ℕ
bucket_milliseconds = 60_000

unfoldable pub bucket_start : ℤ → ℤ
unfolding ◌-ℤ◌ rem_euclid
bucket_start timestamp = timestamp -ℤ pos (rem_euclid timestamp bucket_milliseconds)

abbrev pub Reasons : Type 0
Reasons = List (Bytes × BucketIncompleteReason)

abbrev pub Baselines : Type 0
Baselines = List (CounterKey × (Bytes × ℕ))

abbrev pub WriteDelta : Type 0
WriteDelta = Bytes × Bytes × ℕ

-- No reason is noted for the device.
abbrev pub is_unmarked : Reasons → Bytes → Bool
is_unmarked reasons hash_id = elim (get reasons hash_id) [ none ↦ true | some _ ↦ false ]

-- `for device in devices { reasons.insert(device.hash_id, reason) }`
unfoldable pub insert_all : List MonitoredDevice → BucketIncompleteReason → Reasons → Reasons
insert_all [] reason reasons = reasons
insert_all (device ∷ devices) reason reasons =
    insert_all devices reason (insert reasons device.hash_id reason)

-- `for device in devices { reasons.entry(device.hash_id).or_insert(reason) }`
unfoldable pub or_insert_all : List MonitoredDevice → BucketIncompleteReason → Reasons → Reasons
or_insert_all [] reason reasons = reasons
or_insert_all (device ∷ devices) reason reasons =
    or_insert_all devices reason (or_insert reasons device.hash_id reason)

abbrev pub hash_ids : List MonitoredDevice → List Bytes
hash_ids = map (λ device. device.hash_id)

unfoldable pub new : List MonitoredDevice → ℤ → CollectorState
new devices now_ms = record {
  devices = devices;
  current_bucket = bucket_start now_ms;
  initialized = false;
  baselines = [];
  seen_instances = [];
  currently_mapped = hash_ids devices;
  amounts = [];
  incomplete = insert_all devices cgroup_identity_changed [];
  startup_bucket = true;
}

unfoldable pub mark_all : CollectorState → BucketIncompleteReason → CollectorState
mark_all s reason = record s { incomplete = or_insert_all s.devices reason s.incomplete }

unfoldable pub mark_device : CollectorState → Bytes → BucketIncompleteReason → CollectorState
mark_device s hash_id reason = record s { incomplete = or_insert s.incomplete hash_id reason }

-- The loop over `mapping_lost`.
unfoldable pub lose_all : List Bytes → Reasons → Reasons
lose_all [] incomplete = incomplete
lose_all (hash_id ∷ rest) incomplete =
    lose_all rest (or_insert incomplete hash_id device_mapping_lost)

unfoldable pub update_device_mappings :
    CollectorState → List MonitoredDevice → List Bytes → CollectorState
update_device_mappings s mapped_devices mapping_lost = record s {
  currently_mapped = hash_ids mapped_devices;
  incomplete = lose_all mapping_lost s.incomplete;
}

-- `devices.iter().find(|device| device.number == number)`
unfoldable pub find_number : List MonitoredDevice → DeviceNumber → Option MonitoredDevice
find_number [] number = none
find_number (device ∷ devices) number =
    if eqb device.number number then some device else find_number devices number

-- `devices.iter().find(|device| device.hash_id == hash_id)`
unfoldable pub find_hash_id : List MonitoredDevice → Bytes → Option MonitoredDevice
find_hash_id [] hash_id = none
find_hash_id (device ∷ devices) hash_id =
    if eqb device.hash_id hash_id then some device else find_hash_id devices hash_id

unfoldable pub resolve_device :
    List MonitoredDevice → DeviceNumber → BucketIncompleteReason → Reasons → Reasons
resolve_device devices number reason reasons = elim (find_number devices number) [
  | none ↦ reasons
  | some device ↦ or_insert reasons device.hash_id reason
]

unfoldable pub resolve_device_reasons :
    List MonitoredDevice → List (DeviceNumber × BucketIncompleteReason) → Reasons → Reasons
resolve_device_reasons devices [] reasons = reasons
resolve_device_reasons devices ((number, reason) ∷ rest) reasons =
    resolve_device_reasons devices rest (resolve_device devices number reason reasons)

unfoldable pub resolve_observed :
    List MonitoredDevice → List DeviceNumber → BucketIncompleteReason → Reasons → Reasons
resolve_observed devices [] reason reasons = reasons
resolve_observed devices (number ∷ rest) reason reasons =
    resolve_observed devices rest reason (resolve_device devices number reason reasons)

-- `failure.instance.is_none_or(|instance| key.instance == instance)`
unfoldable pub instance_matches : Option CgroupInstanceId → CgroupInstanceId → Bool
instance_matches none i = true
instance_matches (some expected) i = eqb i expected

-- The filter on `self.baselines.keys()` for one failure.
unfoldable pub is_failed_key : CgroupScanFailure → CounterKey → Bool
is_failed_key failure key =
    eqb key.path failure.path && instance_matches failure.cgroup_instance key.cgroup_instance

unfoldable pub resolve_baselines : CgroupScanFailure → Baselines → Reasons → Reasons
resolve_baselines failure [] reasons = reasons
resolve_baselines failure ((key, _) ∷ rest) reasons = resolve_baselines failure rest (
    if is_failed_key failure key
    then or_insert reasons key.device_hash_id failure.reason
    else reasons)

unfoldable pub resolve_failures :
    List MonitoredDevice → Baselines → List CgroupScanFailure → Reasons → Reasons
resolve_failures devices baselines [] reasons = reasons
resolve_failures devices baselines (failure ∷ rest) reasons =
    resolve_failures devices baselines rest (
      resolve_baselines failure baselines
        (resolve_observed devices failure.observed_devices failure.reason reasons))

unfoldable pub resolve_global : List MonitoredDevice → Option BucketIncompleteReason → Reasons
resolve_global devices none = []
resolve_global devices (some reason) = insert_all devices reason []

unfoldable pub resolve_scan_incomplete : CollectorState → ScanIncomplete → Reasons
resolve_scan_incomplete s incomplete =
    resolve_failures s.devices s.baselines incomplete.cgroup_failures (
      resolve_device_reasons s.devices incomplete.device_reasons
        (resolve_global s.devices incomplete.global_reason))

-- The loop over `reasons`, where the first reason stands.
unfoldable pub or_insert_reasons : Reasons → Reasons → Reasons
or_insert_reasons [] incomplete = incomplete
or_insert_reasons ((hash_id, reason) ∷ rest) incomplete =
    or_insert_reasons rest (or_insert incomplete hash_id reason)

unfoldable pub mark_resolved_incomplete : CollectorState → Reasons → CollectorState
mark_resolved_incomplete s reasons = record s {
  incomplete = or_insert_reasons reasons s.incomplete;
}
