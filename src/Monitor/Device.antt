-- ===== src/Monitor/Device.antt =====
-- `SmartMonitorDevice` of src/monitor/mod.rs: the committed baseline of a device, the sample that is
-- not yet committed, and when the next one is due. A method returns the device with its result.
pub mod Retries
pub mod Commits
pub mod Configured
use Prim.Native.String.{String}
use nvme_disk_mon.Common.{
  ℕ, zero, suc, ◌+◌, ◌-◌, ◌*◌, ◌/◌, ◌%◌, ◌^◌, Bool, true, false, not, ◌||◌, List, [], ◌∷◌, ◌++◌,
  Option, none, some, Bytes, bytes_key, ℕ_discrete, Key, Result, ok, err, eqb, leb, if◌then◌else◌,
  ok_or, fail_if, ◌>>=◌, ◌>>◌,
}
use nvme_disk_mon.Common.Int.{
  ℤ, pos, ◌+ℤ◌, checked_i64, checked_unsigned, i64_of_ℕ, u32_end, u64_end,
}
use nvme_disk_mon.Config.{DiskConfig}
use nvme_disk_mon.Database.Batch.{SmartSampleBatch}
use nvme_disk_mon.Database.Identity.{device_hash_id}
use nvme_disk_mon.Database.Validate.{is_valid_hash_id}
use nvme_disk_mon.Monitor.Delta.{
  SmartDeltaState, SmartBaseline, valid_window, persisted_amount, classify_smart_delta,
}
use nvme_disk_mon.Monitor.Threshold.{bytes_strictly_exceed_gib}
use nvme_disk_mon.Monitor.Schedule.{utc_minute_nearest_window}

-- `NvmeTarget` and `VerifiedNvmeDevice` of src/monitor/smart.rs.
pub record NvmeTarget : Type 0 where
  pub configured_path : Bytes
  pub expected_serial : Bytes

pub record VerifiedNvmeDevice : Type 0 where
  pub configured_path : Bytes
  pub namespace_major : ℕ
  pub namespace_minor : ℕ
  pub controller_path : Bytes
  pub hash_id : Bytes

unfoldable pub VerifiedNvmeDevice-discrete : Discrete VerifiedNvmeDevice
unfolding ℕ_discrete
VerifiedNvmeDevice-discrete = hlevel ℕ_discrete

instance abbrev pub verified_key : Key VerifiedNvmeDevice
verified_key = record { same = VerifiedNvmeDevice-discrete }

pub record SmartThresholdEvent : Type 0 where
  pub device_hash_id : Bytes
  pub label : Bytes
  pub configured_path : Bytes
  pub previous_timestamp : ℤ
  pub current_timestamp : ℤ
  pub write_amount_bytes : ℤ
  pub threshold_gib : ℕ
  pub lookback_minutes : ℕ

pub record PendingSmartSample : Type 0 where
  pub timestamp : ℤ
  pub data_units_written : ℕ
  pub previous_timestamp : Option ℤ
  pub delta_state : SmartDeltaState

-- `value.to_be_bytes()` of an unsigned type with the given number of bytes
unfoldable pub to_be_bytes : ℕ → ℕ → List ℕ
to_be_bytes zero value = []
to_be_bytes (suc width) value = to_be_bytes width (value / 256) ++ value % 256 ∷ []

unfoldable pub to_batch : PendingSmartSample → Bytes → SmartSampleBatch
to_batch sample device_hash_id = record {
  device_hash_id = device_hash_id;
  timestamp = sample.timestamp;
  data_units_written_be = to_be_bytes 16 sample.data_units_written;
  write_amount_bytes = persisted_amount sample.delta_state;
}

pub record SmartMonitorDevice : Type 0 where
  pub label : Bytes
  pub target : NvmeTarget
  pub verified : VerifiedNvmeDevice
  pub expected_span_ms : ℤ
  pub lookback_minutes : ℕ
  pub threshold_gib : ℕ
  pub baseline : Option SmartBaseline
  pub pending : Option PendingSmartSample
  pub next_due_timestamp : ℤ
  pub read_failures : ℕ
  pub active : Bool

-- `detect_window_hr.checked_mul(3_600_000)`, then `i64::try_from`
unfoldable pub window_ms : ℕ → Option ℤ
window_ms hours = elim (checked_unsigned u64_end (hours * 3_600_000)) [
  | none ↦ none
  | some ms ↦ i64_of_ℕ ms
]

non_zero : ℕ → Option ℕ
non_zero zero = none
non_zero (suc n) = some (suc n)

-- `detect_window_hr.checked_mul(60)`, then `u32::try_from` and `NonZeroU32::new`
unfoldable pub window_minutes : ℕ → Option ℕ
unfolding non_zero
window_minutes hours = elim (checked_unsigned u64_end (hours * 60)) [
  | none ↦ none
  | some minutes ↦ elim (checked_unsigned u32_end minutes) [ none ↦ none | some m ↦ non_zero m ]
]

module _ (sha256 : Bytes → List ℕ) where
  unfoldable pub new :
      DiskConfig → VerifiedNvmeDevice → Option SmartBaseline → Result SmartMonitorDevice String
  unfolding window_ms window_minutes
  new config verified recovered = do
    expected_span_ms ←
        ok_or (window_ms config.detect_window_hr)
          "SMART detection window is outside the supported range"
    lookback_minutes ←
        ok_or (window_minutes config.detect_window_hr)
          "SMART detection window does not fit the ranking lookback range"
    fail_if
        (not (eqb verified.configured_path config.path)
          || (not (is_valid_hash_id verified.hash_id)
              || not (eqb verified.hash_id (device_hash_id sha256 config.serial config.path))))
        "verified NVMe device identity is inconsistent"
    ok (record {
      label = config.label;
      target = record { configured_path = config.path; expected_serial = config.serial };
      verified = verified;
      expected_span_ms = expected_span_ms;
      lookback_minutes = lookback_minutes;
      threshold_gib = config.w_delta_threshold_gib;
      baseline = recovered;
      pending = none;
      next_due_timestamp = pos 0;
      read_failures = 0;
      active = true;
    })

unfoldable pub identity_matches : SmartMonitorDevice → VerifiedNvmeDevice → Bool
identity_matches d observed = eqb observed d.verified

baseline_timestamp : Option SmartBaseline → Option ℤ
baseline_timestamp none = none
baseline_timestamp (some baseline) = some baseline.timestamp

unfoldable pub prepare_current : SmartMonitorDevice → ℤ → ℕ → SmartMonitorDevice × SmartDeltaState
unfolding baseline_timestamp
prepare_current d timestamp data_units_written = elim d.pending [
  | some pending ↦ (d, pending.delta_state)
  | none ↦
      let delta_state =
        classify_smart_delta d.baseline timestamp data_units_written d.expected_span_ms in
      (
        record d {
          pending = some (record {
            timestamp = timestamp;
            data_units_written = data_units_written;
            previous_timestamp = baseline_timestamp d.baseline;
            delta_state = delta_state;
          });
        },
        delta_state,
      )
]

unfoldable pub pending_batch : SmartMonitorDevice → Option SmartSampleBatch
unfolding to_batch
pending_batch d = elim d.pending [
  | none ↦ none
  | some pending ↦ some (to_batch pending d.verified.hash_id)
]

threshold_event : SmartMonitorDevice → PendingSmartSample → ℤ → ℤ → SmartThresholdEvent
threshold_event d pending write_amount_bytes previous_timestamp = record {
  device_hash_id = d.verified.hash_id;
  label = d.label;
  configured_path = d.verified.configured_path;
  previous_timestamp = previous_timestamp;
  current_timestamp = pending.timestamp;
  write_amount_bytes = write_amount_bytes;
  threshold_gib = d.threshold_gib;
  lookback_minutes = d.lookback_minutes;
}

-- The part of `acknowledge_pending` behind the new baseline.
unfoldable pub event_of :
    SmartMonitorDevice → PendingSmartSample → SmartDeltaState → Option SmartThresholdEvent
unfolding threshold_event
event_of d pending (valid_window write_amount_bytes) =
    if not (bytes_strictly_exceed_gib write_amount_bytes d.threshold_gib)
    then none
    else elim pending.previous_timestamp [
      | none ↦ none
      | some previous_timestamp ↦
          some (threshold_event d pending write_amount_bytes previous_timestamp)
    ]
event_of d pending _ = none

unfoldable pub acknowledge_pending :
    SmartMonitorDevice → SmartMonitorDevice × Option SmartThresholdEvent
unfolding event_of
acknowledge_pending d = elim d.pending [
  | none ↦ (d, none)
  | some pending ↦ (
    record d {
      pending = none;
      baseline = some (record {
        timestamp = pending.timestamp;
        data_units_written = pending.data_units_written;
      });
    },
    event_of d pending pending.delta_state,
  )
]

-- `self.next_due_timestamp = ...?`, with `read_failures` set before and after.
unfoldable pub set_due :
    SmartMonitorDevice → Option ℤ → ℕ → String → SmartMonitorDevice × Result (Unit {0}) String
set_due d none failures message = (d, err message)
set_due d (some due) failures message =
    (record d { next_due_timestamp = due; read_failures = failures }, ok tt)

unfoldable pub schedule_after_success :
    SmartMonitorDevice → ℤ → SmartMonitorDevice × Result (Unit {0}) String
unfolding set_due
schedule_after_success d sampled_timestamp =
    set_due d (utc_minute_nearest_window sampled_timestamp d.expected_span_ms) 0
      "SMART schedule timestamp is outside the supported range"

abbrev pub max_smart_read_retries : ℕ
max_smart_read_retries = 3

-- `SMART_READ_RETRY_BASE.checked_mul(1_u32 << shift)` in milliseconds
unfoldable pub retry_delay_ms : ℕ → Option ℤ
retry_delay_ms shift = i64_of_ℕ (1_000 * 2 ^ shift)

unfoldable pub schedule_retry :
    SmartMonitorDevice → ℤ → Option ℤ → SmartMonitorDevice × Result (Unit {0}) String
unfolding set_due ◌+ℤ◌
schedule_retry d now_ms none = (d, err "SMART retry schedule is outside the supported range")
schedule_retry d now_ms (some retry_ms) =
    set_due d (checked_i64 (now_ms +ℤ retry_ms)) d.read_failures
      "SMART retry timestamp is outside the supported range"

unfoldable pub schedule_after_read_failure :
    SmartMonitorDevice → ℤ → SmartMonitorDevice × Result (Unit {0}) String
unfolding set_due schedule_retry retry_delay_ms
schedule_after_read_failure d now_ms =
    let failures = d.read_failures + 1 in
    if leb failures max_smart_read_retries
    then schedule_retry (record d { read_failures = failures }) now_ms
        (retry_delay_ms (failures - 1))
    else set_due (record d { read_failures = 0 })
        (utc_minute_nearest_window now_ms d.expected_span_ms) 0
        "SMART schedule timestamp is outside the supported range"
