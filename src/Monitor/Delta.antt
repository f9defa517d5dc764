-- ===== src/Monitor/Delta.antt =====
-- `SmartDeltaState` and `classify_smart_delta` of src/monitor/mod.rs.
pub mod Window
use nvme_disk_mon.Common.{ℕ, ◌+◌, ◌-◌, ◌*◌, Option, none, some, if◌then◌else◌, leb}
use nvme_disk_mon.Common.Int.{
  ℤ, pos_part, neg_part, ◌-ℤ◌, is_negative, checked_i64, checked_sub, checked_unsigned, i64_of_ℕ,
  u128_end,
}

pub data SmartDeltaState : Type 0 where
  valid_window : ℤ → SmartDeltaState
  -- the amount, the expected span and the actual span
  outside_detection_window : ℤ → ℤ → ℤ → SmartDeltaState
  first_baseline counter_regressed continuity_uncertain : SmartDeltaState
  amount_out_of_sqlite_range : SmartDeltaState

unfoldable pub persisted_amount : SmartDeltaState → Option ℤ
persisted_amount (valid_window amount) = some amount
persisted_amount (outside_detection_window amount _ _) = some amount
persisted_amount _ = none

pub record SmartBaseline : Type 0 where
  pub timestamp : ℤ
  pub data_units_written : ℕ

abbrev pub nvme_data_unit_bytes : ℕ
nvme_data_unit_bytes = 512_000

abbrev pub window_tolerance_ms : ℕ
window_tolerance_ms = 60_000

-- `a.abs_diff(b)`
unfoldable pub abs_diff : ℤ → ℤ → ℕ
abs_diff a b =
    pos_part a
    + neg_part b
    - (pos_part b + neg_part a)
    + (pos_part b + neg_part a - (pos_part a + neg_part b))

-- `delta_units.checked_mul(512_000)`, then `i64::try_from`
unfoldable pub write_amount : ℕ → Option ℤ
write_amount delta_units = elim (checked_unsigned u128_end (delta_units * nvme_data_unit_bytes)) [
  | none ↦ none
  | some amount ↦ i64_of_ℕ amount
]

-- The last test of `classify_smart_delta`.
unfoldable pub classify_amount : Option ℤ → ℤ → ℤ → SmartDeltaState
unfolding abs_diff
classify_amount none actual_span_ms expected_span_ms = amount_out_of_sqlite_range
classify_amount (some amount) actual_span_ms expected_span_ms =
    if leb (abs_diff actual_span_ms expected_span_ms) window_tolerance_ms
    then valid_window amount
    else outside_detection_window amount expected_span_ms actual_span_ms

unfoldable pub classify_span : ℕ → Option ℤ → ℤ → SmartDeltaState
unfolding classify_amount write_amount
classify_span delta_units none expected_span_ms = continuity_uncertain
classify_span delta_units (some actual_span_ms) expected_span_ms =
    if is_negative actual_span_ms
    then continuity_uncertain
    else classify_amount (write_amount delta_units) actual_span_ms expected_span_ms

unfoldable pub classify_smart_delta : Option SmartBaseline → ℤ → ℕ → ℤ → SmartDeltaState
unfolding classify_span ◌-ℤ◌
classify_smart_delta none current_timestamp current_data_units_written expected_span_ms =
    first_baseline
classify_smart_delta (some previous) current_timestamp current_data_units_written expected_span_ms =
    elim (checked_sub current_data_units_written previous.data_units_written) [
      | none ↦ counter_regressed
      | some delta_units ↦
          classify_span delta_units (checked_i64 (current_timestamp -ℤ previous.timestamp))
            expected_span_ms
    ]
