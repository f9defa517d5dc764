-- ===== src/Monitor/Delta/Window.antt =====
-- When a sample counts for the threshold.
use nvme_disk_mon.Common.{ℕ, ◌+◌, ◌-◌, ◌*◌, ◌≤◌, ◌<◌, ◌≡◌, ◌↔◌, some, arith}
use nvme_disk_mon.Common.Int.{ℤ, pos, ◌≤ℤ◌, ◌+ℤ◌, ◌-ℤ◌, i64_end}
use nvme_disk_mon.Monitor.Delta.{
  SmartBaseline, valid_window, persisted_amount, classify_smart_delta,
}

-- The counter did not fall, time did not go back, and the span is the window's within a minute.
pub record IsWindow (previous : SmartBaseline) (timestamp : ℤ) (units : ℕ) (expected : ℤ)
    (amount : ℕ) : Type 0 where
  pub grown : units ≡ previous.data_units_written + amount
  pub forward : previous.timestamp ≤ℤ timestamp
  pub fits_span : timestamp -ℤ previous.timestamp ≤ℤ pos (i64_end - 1)
  pub fits_amount : amount * 512_000 < i64_end
  pub not_early : expected ≤ℤ (timestamp -ℤ previous.timestamp) +ℤ pos 60_000
  pub not_late : (timestamp -ℤ previous.timestamp) ≤ℤ expected +ℤ pos 60_000

module _ (previous : SmartBaseline) (timestamp : ℤ) (units : ℕ) (expected : ℤ) (amount : ℕ) where
  valid_of_window :
      IsWindow previous timestamp units expected amount
      → classify_smart_delta (some previous) timestamp units expected
        ≡ valid_window (pos (amount * 512_000))
  unfolding classify_smart_delta ◌+ℤ◌
  valid_of_window w = ground arith

  IsWindow-of_valid :
      classify_smart_delta (some previous) timestamp units expected
        ≡ valid_window (pos (amount * 512_000))
      → IsWindow previous timestamp units expected amount
  unfolding classify_smart_delta ◌+ℤ◌
  IsWindow-of_valid e = ground arith

  -- A sample is a valid window exactly when the counter has grown by the amount, in units of 512000
  -- bytes that fit an i64, over a span from 0 on that is the expected one within a minute.
  pub classify_smart_delta-valid_window :
      (classify_smart_delta (some previous) timestamp units expected
        ≡ valid_window (pos (amount * 512_000)))
      ↔ IsWindow previous timestamp units expected amount
  classify_smart_delta-valid_window = (IsWindow-of_valid, valid_of_window)

-- An amount that is stored for a sample behind a baseline is the growth of the counter in bytes,
-- and fits an i64.
pub persisted_amount-classify_smart_delta :
    (previous : SmartBaseline) (timestamp : ℤ) (units : ℕ) (expected amount : ℤ)
    → persisted_amount (classify_smart_delta (some previous) timestamp units expected) ≡ some amount
    → (amount ≡ pos ((units - previous.data_units_written) * 512_000))
      × (previous.data_units_written ≤ units)
      × ((units - previous.data_units_written) * 512_000 < i64_end)
unfolding classify_smart_delta persisted_amount
persisted_amount-classify_smart_delta previous timestamp units expected amount e = ground arith
