-- ===== src/Monitor/Threshold.antt =====
-- `bytes_strictly_exceed_gib` and `gib_floor_bytes` of src/monitor/mod.rs, which src/database/schema.rs
-- repeats. An f64 is its bit pattern, a number below 2 ^ 64; the masks are contiguous, so that a mask
-- and a shift are written by `/` and `%`.
pub mod Exact
use nvme_disk_mon.Common.{
  ℕ, ◌+◌, ◌-◌, ◌*◌, ◌/◌, ◌%◌, ◌^◌, Bool, true, false, not, ◌&&◌, ◌||◌, Option, none, some, ltb, leb,
  ◌==◌, if◌then◌else◌,
}
use nvme_disk_mon.Common.Int.{ℤ, pos, negsuc, u64_end}

-- The sign, the exponent and the fraction of a bit pattern.
abbrev pub sign : ℕ → ℕ
sign bits = bits / 2 ^ 63

abbrev pub encoded_exponent : ℕ → ℕ
encoded_exponent bits = bits / 2 ^ 52 % 2 ^ 11

abbrev pub fraction : ℕ → ℕ
fraction bits = bits % 2 ^ 52

-- `value.is_finite()`
abbrev pub is_finite : ℕ → Bool
is_finite bits = not (encoded_exponent bits == 2047)

-- `value < 0.0`, for a value that is no NaN: -0.0 is not below 0.
abbrev pub is_below_zero : ℕ → Bool
is_below_zero bits = sign bits == 1 && not (bits % 2 ^ 63 == 0)

-- `byte_shift` is exponent - 1023 - 52 + 30, so its sign is that of exponent - 1045.
unfoldable pub shifted : ℕ → ℕ → ℕ
shifted significand exponent =
    if leb 1045 exponent
    then (if leb 12 (exponent - 1045) then u64_end else significand * 2 ^ (exponent - 1045))
    else if leb 128 (1045 - exponent)
    then 0
    else significand / 2 ^ (1045 - exponent)

unfoldable pub gib_floor_bytes : ℕ → Option ℕ
unfolding shifted
gib_floor_bytes bits =
    if not (is_finite bits) || is_below_zero bits
    then none
    else if encoded_exponent bits == 0
    then some 0
    else some (shifted (2 ^ 52 + fraction bits) (encoded_exponent bits))

-- The comparison with the floor; `u64::try_from` refuses what is below 0.
unfoldable pub exceeds_floor : ℕ → Option ℕ → Bool
exceeds_floor write_amount_bytes none = false
exceeds_floor write_amount_bytes (some floor) = ltb floor write_amount_bytes

unfoldable pub bytes_strictly_exceed_gib : ℤ → ℕ → Bool
unfolding exceeds_floor
bytes_strictly_exceed_gib (pos write_amount_bytes) threshold_gib =
    exceeds_floor write_amount_bytes (gib_floor_bytes threshold_gib)
bytes_strictly_exceed_gib (negsuc _) threshold_gib = false
