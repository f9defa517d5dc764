-- ===== src/Monitor/Schedule.antt =====
-- `utc_minute_nearest_window` of src/monitor/mod.rs: the next sample is due at the full minute that is
-- nearest to the end of the window.
use nvme_disk_mon.Common.{ℕ, ◌+◌, ◌-◌, ◌%◌, ◌<◌, ◌≡◌, Option, none, some, ltb, if◌then◌else◌, arith}
use nvme_disk_mon.Common.Int.{ℤ, pos, ◌+ℤ◌, ◌-ℤ◌, ◌≤ℤ◌, rem_euclid, checked_i64, i64_end}

abbrev pub utc_minute_ms : ℕ
utc_minute_ms = 60_000

unfoldable pub nearest_minute : ℤ → Option ℤ
unfolding rem_euclid ◌+ℤ◌ ◌-ℤ◌
nearest_minute target =
    let remainder = rem_euclid target utc_minute_ms in
    if ltb remainder 30_000
    then checked_i64 (target -ℤ pos remainder)
    else checked_i64 (target +ℤ pos (utc_minute_ms - remainder))

unfoldable pub utc_minute_nearest_window : ℤ → ℤ → Option ℤ
unfolding nearest_minute
utc_minute_nearest_window sampled_timestamp window_ms =
    elim (checked_i64 (sampled_timestamp +ℤ window_ms)) [
      | none ↦ none
      | some target ↦ nearest_minute target
    ]

-- The due time is a full minute, within half a minute of the end of the window.
pub utc_minute_nearest_window-near :
    (sampled window due : ℤ)
    → utc_minute_nearest_window sampled window ≡ some due
    → (rem_euclid due utc_minute_ms ≡ 0)
      × (due ≤ℤ sampled +ℤ window +ℤ pos 30_000)
      × (sampled +ℤ window ≤ℤ due +ℤ pos 30_000)
unfolding utc_minute_nearest_window
utc_minute_nearest_window-near sampled window due e = ground arith

-- For times from 0 on, whose sum stays half a minute below the end of i64, there is a due time.
pub utc_minute_nearest_window-some :
    (sampled window : ℕ)
    → sampled + window + 30_000 < i64_end
    → (due : ℕ) × (utc_minute_nearest_window (pos sampled) (pos window) ≡ some (pos due))
unfolding utc_minute_nearest_window
utc_minute_nearest_window-some sampled window h = (nearest (sampled + window), ground arith)
  where
    nearest : ℕ → ℕ
    nearest n = if ltb (n % 60_000) 30_000 then n - n % 60_000 else n + (60_000 - n % 60_000)
