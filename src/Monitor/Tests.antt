-- ===== src/Monitor/Tests.antt =====
-- Runs of the SMART monitor on small inputs, and the theorems at them.
use nvme_disk_mon.Common.{
  ℕ, ◌+◌, ◌-◌, ◌*◌, ◌^◌, ◌≤◌, ◌<◌, ◌≡◌, ◌↔◌, ◌⊎◌, refl, true, false, [], ◌∷◌, none, some, Bytes,
  Bytes-discrete, bytes, bytes_key, ℕ_discrete, ok, contains, arith, is_ascii_digit,
}
use nvme_disk_mon.Common.Int.{pos, ◌+ℤ◌, ◌-ℤ◌, ◌≤ℤ◌, rem_euclid, i64_end}
use nvme_disk_mon.Database.Batch.{SmartSampleBatch}
use nvme_disk_mon.Database.Validate.{is_hex_digit, is_valid_hash_id, validate_smart_sample}
use nvme_disk_mon.Monitor.Delta.{
  SmartBaseline, valid_window, persisted_amount, classify_smart_delta, classify_span,
  classify_amount, write_amount, abs_diff,
}
use nvme_disk_mon.Monitor.Delta.Window.{
  IsWindow, classify_smart_delta-valid_window, persisted_amount-classify_smart_delta,
}
use nvme_disk_mon.Monitor.Threshold.{bytes_strictly_exceed_gib}
use nvme_disk_mon.Monitor.Threshold.Exact.{scaled_threshold, bytes_strictly_exceed_gib-exact}
use nvme_disk_mon.Monitor.Schedule.{
  utc_minute_nearest_window, nearest_minute, utc_minute_ms, utc_minute_nearest_window-near,
  utc_minute_nearest_window-some,
}
use nvme_disk_mon.Monitor.Device.{
  VerifiedNvmeDevice, SmartMonitorDevice, SmartThresholdEvent, prepare_current, pending_batch,
  to_batch, to_be_bytes,
}
use nvme_disk_mon.Monitor.Device.Retries.{after_failures, after_failures-next_due_timestamp}
use nvme_disk_mon.Monitor.Device.Commits.{
  committed, committed-event, IsExcess, pending_batch-validate_smart_sample,
}
use nvme_disk_mon.Monitor.Task.{Reading, step}
use nvme_disk_mon.Monitor.Task.Safety.{IsQuiet, IsCommit, step-IsCommit}

-- The bit pattern of 1.5 as an f64.
abbrev one_and_a_half : ℕ
one_and_a_half = 1023 * 2 ^ 52 + 2 ^ 51

abbrev hour : ℕ
hour = 3_600_000

abbrev hash_a : Bytes
hash_a = bytes "aaaaaaaaaaaaaaaaaaaaaaaaaaaaaaaaaaaaaaaaaaaaaaaaaaaaaaaaaaaaaaaa"

abbrev baseline_a : SmartBaseline
baseline_a = record { timestamp = pos 1_000_000; data_units_written = 100 }

abbrev verified_a : VerifiedNvmeDevice
verified_a = record {
  configured_path = bytes "/dev/disk/by-id/a";
  namespace_major = 259;
  namespace_minor = 0;
  controller_path = bytes "/dev/nvme0";
  hash_id = hash_a;
}

abbrev device_a : SmartMonitorDevice
device_a = record {
  label = bytes "a";
  target = record { configured_path = bytes "/dev/disk/by-id/a"; expected_serial = bytes "s" };
  verified = verified_a;
  expected_span_ms = pos hour;
  lookback_minutes = 60;
  threshold_gib = one_and_a_half;
  baseline = some baseline_a;
  pending = none;
  next_due_timestamp = pos 0;
  read_failures = 0;
  active = true;
}

abbrev event_a : SmartThresholdEvent
event_a = record {
  device_hash_id = hash_a;
  label = bytes "a";
  configured_path = bytes "/dev/disk/by-id/a";
  previous_timestamp = pos 1_000_000;
  current_timestamp = pos 4_630_000;
  write_amount_bytes = pos 2_048_000_000;
  threshold_gib = one_and_a_half;
  lookback_minutes = 60;
}

-- 4000 units over an hour and half a minute.
IsWindow-a : IsWindow baseline_a (pos 4_630_000) 4_100 (pos hour) 4_000
unfolding ◌+ℤ◌ ◌-ℤ◌
IsWindow-a = record {
  grown = refl;
  forward = omega arith;
  fits_span = omega arith;
  fits_amount = omega arith;
  not_early = omega arith;
  not_late = omega arith;
}

bytes_strictly_exceed_gib-exact_example :
    (bytes_strictly_exceed_gib (pos 1_610_612_737) one_and_a_half ≡ true)
    ↔ (scaled_threshold one_and_a_half + 0 * 2 ^ 1044 < 1_610_612_737 * 2 ^ 1044)
bytes_strictly_exceed_gib-exact_example =
    bytes_strictly_exceed_gib-exact (pos 1_610_612_737) one_and_a_half refl refl refl

classify_smart_delta-valid_window_example :
    (classify_smart_delta (some baseline_a) (pos 4_630_000) 4_100 (pos hour)
      ≡ valid_window (pos (4_000 * 512_000)))
    ↔ IsWindow baseline_a (pos 4_630_000) 4_100 (pos hour) 4_000
classify_smart_delta-valid_window_example =
    classify_smart_delta-valid_window baseline_a (pos 4_630_000) 4_100 (pos hour) 4_000

valid_a :
    classify_smart_delta (some baseline_a) (pos 4_630_000) 4_100 (pos hour)
    ≡ valid_window (pos 2_048_000_000)
valid_a = classify_smart_delta-valid_window_example.1 IsWindow-a

persisted_a :
    persisted_amount (classify_smart_delta (some baseline_a) (pos 4_630_000) 4_100 (pos hour))
    ≡ some (pos 2_048_000_000)
unfolding persisted_amount
persisted_a = rw valid_a refl

persisted_amount-classify_smart_delta_example :
    (pos 2_048_000_000 ≡ pos ((4_100 - 100) * 512_000))
    × (100 ≤ 4_100)
    × ((4_100 - 100) * 512_000 < i64_end)
persisted_amount-classify_smart_delta_example =
    persisted_amount-classify_smart_delta baseline_a (pos 4_630_000) 4_100 (pos hour)
      (pos 2_048_000_000) persisted_a

due_a : utc_minute_nearest_window (pos 4_630_000) (pos hour) ≡ some (pos 8_220_000)
unfolding utc_minute_nearest_window nearest_minute rem_euclid ◌+ℤ◌ ◌-ℤ◌
due_a = refl

utc_minute_nearest_window-near_example :
    (rem_euclid (pos 8_220_000) utc_minute_ms ≡ 0)
    × (pos 8_220_000 ≤ℤ pos 4_630_000 +ℤ pos hour +ℤ pos 30_000)
    × (pos 4_630_000 +ℤ pos hour ≤ℤ pos 8_220_000 +ℤ pos 30_000)
utc_minute_nearest_window-near_example =
    utc_minute_nearest_window-near (pos 4_630_000) (pos hour) (pos 8_220_000) due_a

utc_minute_nearest_window-some_example :
    (due : ℕ) × (utc_minute_nearest_window (pos 4_630_000) (pos hour) ≡ some (pos due))
utc_minute_nearest_window-some_example = utc_minute_nearest_window-some 4_630_000 hour (omega arith)

after_failures-next_due_timestamp_example :
    (after_failures device_a (pos 10 ∷ [])
      ≡ record device_a { next_due_timestamp = pos 1_010; read_failures = 1 })
    × (after_failures device_a (pos 10 ∷ pos 1_010 ∷ [])
        ≡ record device_a { next_due_timestamp = pos 3_010; read_failures = 2 })
    × (after_failures device_a (pos 10 ∷ pos 1_010 ∷ pos 3_010 ∷ [])
        ≡ record device_a { next_due_timestamp = pos 7_010; read_failures = 3 })
    × (after_failures device_a (pos 10 ∷ pos 1_010 ∷ pos 3_010 ∷ pos 4_630_000 ∷ [])
        ≡ record device_a { next_due_timestamp = pos 8_220_000; read_failures = 0 })
after_failures-next_due_timestamp_example =
    after_failures-next_due_timestamp device_a 10 1_010 3_010 4_630_000 (pos 8_220_000) refl
      (omega arith) (omega arith) (omega arith) due_a

committed-event_example :
    ((committed device_a (pos 4_630_000) 4_100).1 ≡ some event_a)
    ↔ IsExcess device_a (pos 4_630_000) 4_100 event_a
committed-event_example = committed-event device_a (pos 4_630_000) 4_100 event_a refl

abbrev sample_batch : SmartSampleBatch
sample_batch = record {
  device_hash_id = hash_a;
  timestamp = pos 4_630_000;
  data_units_written_be = 0 ∷ 0 ∷ 0 ∷ 0 ∷ 0 ∷ 0 ∷ 0 ∷ 0 ∷ 0 ∷ 0 ∷ 0 ∷ 0 ∷ 0 ∷ 0 ∷ 16 ∷ 4 ∷ [];
  write_amount_bytes = some (pos 2_048_000_000);
}

submitted_a : pending_batch (prepare_current device_a (pos 4_630_000) 4_100).0 ≡ some sample_batch
unfolding pending_batch to_batch to_be_bytes prepare_current classify_smart_delta classify_span
    classify_amount write_amount abs_diff persisted_amount ◌-ℤ◌
submitted_a = refl

valid_hash : is_valid_hash_id hash_a ≡ true
unfolding is_valid_hash_id is_hex_digit is_ascii_digit
valid_hash = refl

known_hash : contains (hash_a ∷ []) hash_a ≡ true
unfolding contains Bytes-discrete ℕ_discrete
known_hash = refl

pending_batch-validate_smart_sample_example :
    validate_smart_sample 1 sample_batch (hash_a ∷ []) ≡ ok tt
pending_batch-validate_smart_sample_example =
    pending_batch-validate_smart_sample 1 device_a 4_630_000 4_100 sample_batch (hash_a ∷ []) refl
      valid_hash known_hash submitted_a

abbrev reading_a : Reading
reading_a = record {
  stopped = false;
  now_ms = pos 4_630_000;
  smart =
      ok (verified_a, record { sampled_ms = ok (pos 4_630_000); data_units_written = some 4_100 });
  stopped_after_read = false;
  answer = λ _. ok true;
}

step-IsCommit_example :
    IsQuiet device_a (step reading_a device_a)
    ⊎ IsCommit reading_a device_a (step reading_a device_a)
step-IsCommit_example = step-IsCommit reading_a device_a refl
