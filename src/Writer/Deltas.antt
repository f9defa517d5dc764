-- ===== src/Writer/Deltas.antt =====
-- `CollectorState::calculate_deltas` and `accumulate` of src/writer/collector.rs. The loop carries
-- its local variables, and the two fields that it changes, in a record.
pub mod Balance
pub mod Conserved
use nvme_disk_mon.Common.{
  ℕ, ◌+◌, ◌-◌, Bool, true, false, not, List, [], ◌∷◌, ◌++◌, Option, none, some, Bytes, bytes_key,
  get, insert, or_insert, contains, insert_set, ltb, leb, if◌then◌else◌, is_some,
}
use nvme_disk_mon.Common.Int.{checked_unsigned, u128_end}
use nvme_disk_mon.Writer.Types.{
  MonitoredDevice, BucketIncompleteReason, CounterKey, Observation, CollectorState,
  cgroup_identity_changed, counter_reset, accumulator_overflow, device_mapping_lost,
  device_number_key, counter_key, amount_key,
}
use nvme_disk_mon.Writer.Marks.{Reasons, Baselines, WriteDelta, or_insert_all, find_hash_id}

pub record DeltaLoop : Type 0 where
  pub incomplete : Reasons
  pub seen_instances : List CounterKey
  pub next_baselines : Baselines
  pub deltas : List WriteDelta

abbrev pub Amounts : Type 0
Amounts = List ((Bytes × Bytes) × ℕ)

-- The match on `self.baselines.get(&key)`: the bytes written, or the reason for a gap.
unfoldable pub delta_of :
    Option (Bytes × ℕ) → Bool → Bool → ℕ → Option ℕ × Option BucketIncompleteReason
delta_of (some (_, previous)) initialized was_seen current =
    if leb previous current then (some (current - previous), none) else (none, some counter_reset)
delta_of none true false current = (some current, none)
delta_of none true true current = (none, some cgroup_identity_changed)
delta_of none false was_seen current = (none, none)

-- `self.incomplete.entry(hash_id).or_insert(reason)`, where there is a reason
unfoldable pub mark_reason : Reasons → Bytes → Option BucketIncompleteReason → Reasons
mark_reason reasons hash_id none = reasons
mark_reason reasons hash_id (some reason) = or_insert reasons hash_id reason

-- `if let Some(delta) = delta.filter(|delta| *delta > 0) { deltas.push(...) }`
unfoldable pub push_delta : List WriteDelta → Bytes → Bytes → Option ℕ → List WriteDelta
push_delta deltas hash_id workload none = deltas
push_delta deltas hash_id workload (some delta) =
    if ltb 0 delta then deltas ++ (hash_id, workload, delta) ∷ [] else deltas

abbrev pub key_of : Observation → MonitoredDevice → CounterKey
key_of observation device = record {
  path = observation.path;
  cgroup_instance = observation.cgroup_instance;
  device_hash_id = device.hash_id;
  device = device.number;
}

-- The loop body after `current` is found.
unfoldable pub observe_counter :
    Bool → Baselines → Observation → MonitoredDevice → ℕ → DeltaLoop → DeltaLoop
observe_counter initialized baselines observation device current l =
    let key = key_of observation device in
    let (delta, reason) =
      delta_of (get baselines key) initialized (contains l.seen_instances key) current in
    record {
      incomplete = mark_reason l.incomplete device.hash_id reason;
      seen_instances = insert_set l.seen_instances key;
      next_baselines = insert l.next_baselines key (observation.workload_name, current);
      deltas = push_delta l.deltas device.hash_id observation.workload_name delta;
    }

-- The loop body for one device, with its two `continue`s.
unfoldable pub observe_device :
    CollectorState → Observation → MonitoredDevice → DeltaLoop → DeltaLoop
observe_device s observation device l =
    if not (contains s.currently_mapped device.hash_id)
    then l
    else elim (get observation.counters device.number) [
      | none ↦ l
      | some current ↦ observe_counter s.initialized s.baselines observation device current l
    ]

unfoldable pub observe_devices :
    CollectorState → Observation → List MonitoredDevice → DeltaLoop → DeltaLoop
observe_devices s observation [] l = l
observe_devices s observation (device ∷ devices) l =
    observe_devices s observation devices (observe_device s observation device l)

unfoldable pub observe_all : CollectorState → List Observation → DeltaLoop → DeltaLoop
observe_all s [] l = l
observe_all s (observation ∷ rest) l =
    observe_all s rest (observe_devices s observation s.devices l)

-- One previous baseline that the scan did not renew.
unfoldable pub mark_missing : List MonitoredDevice → CounterKey → Reasons → Reasons
mark_missing devices key incomplete = elim (find_hash_id devices key.device_hash_id) [
  | some device ↦ or_insert incomplete device.hash_id cgroup_identity_changed
  | none ↦ or_insert_all devices device_mapping_lost incomplete
]

unfoldable pub mark_all_missing : List MonitoredDevice → Baselines → Baselines → Reasons → Reasons
mark_all_missing devices [] next incomplete = incomplete
mark_all_missing devices ((key, _) ∷ previous) next incomplete =
    mark_all_missing devices previous next
      (if is_some (get next key) then incomplete else mark_missing devices key incomplete)

abbrev pub delta_start : CollectorState → DeltaLoop
delta_start s = record {
  incomplete = s.incomplete;
  seen_instances = s.seen_instances;
  next_baselines = [];
  deltas = [];
}

unfoldable pub calculate_deltas :
    CollectorState → List Observation → CollectorState × List WriteDelta
calculate_deltas s observations =
    let l = observe_all s observations (delta_start s) in
    (
      record s {
        incomplete = mark_all_missing s.devices s.baselines l.next_baselines l.incomplete;
        seen_instances = l.seen_instances;
        baselines = l.next_baselines;
      },
      l.deltas,
    )

abbrev pub get_or_zero : Option ℕ → ℕ
get_or_zero none = 0
get_or_zero (some n) = n

-- The match on the checked sum.
unfoldable pub store_amount : CollectorState → Bytes → Bytes → Option ℕ → CollectorState
store_amount s hash_id workload (some amount) = record s {
  amounts = insert s.amounts (hash_id, workload) amount;
}
store_amount s hash_id workload none = record s {
  incomplete = or_insert s.incomplete hash_id accumulator_overflow;
}

-- One delta: the sum is checked in u128.
unfoldable pub accumulate_delta : CollectorState → WriteDelta → CollectorState
unfolding store_amount
accumulate_delta s (hash_id, workload, delta) =
    store_amount s hash_id workload
      (checked_unsigned u128_end (get_or_zero (get s.amounts (hash_id, workload)) + delta))

unfoldable pub accumulate : CollectorState → List WriteDelta → CollectorState
accumulate s [] = s
accumulate s (delta ∷ deltas) = accumulate (accumulate_delta s delta) deltas
