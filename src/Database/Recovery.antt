-- ===== src/Database/Recovery.antt =====
-- `decode_data_units_written` of src/database/schema.rs: the counter of the last sample of a device, as
-- it is recovered at startup, is the one that the monitor wrote.
use nvme_disk_mon.Common.{
  ℕ, zero, suc, ◌+◌, ◌*◌, ◌/◌, ◌%◌, ◌^◌, ◌<◌, ◌≡◌, refl, List, [], ◌∷◌, ◌++◌, Bytes, Result, ok,
  err, length, ◌==◌, if◌then◌else◌, length-append, arith,
}
use nvme_disk_mon.Common.Int.{ℤ, u128_end}
use nvme_disk_mon.Database.Errors.{DbWriteError, invalid_stored_smart_counter}
use nvme_disk_mon.Monitor.Device.{to_be_bytes}
use native.Mathlib.Nat.{pow-suc, div-lt_iff_lt-mul}

-- `from_be_bytes`, with the value of the bytes that were read before
unfoldable pub from_be_bytes : ℕ → List ℕ → ℕ
from_be_bytes value [] = value
from_be_bytes value (b ∷ bytes) = from_be_bytes (value * 256 + b) bytes

-- `bytes.try_into()` of a `Vec<u8>` to `[u8; 16]` is the test of its length.
unfoldable pub decode_data_units_written : Bytes → ℤ → List ℕ → Result ℕ DbWriteError
unfolding from_be_bytes
decode_data_units_written hash_id timestamp bytes =
    if length bytes == 16
    then ok (from_be_bytes 0 bytes)
    else err (invalid_stored_smart_counter hash_id timestamp (length bytes))

from_be_bytes-append_last :
    (value : ℕ) (bytes : List ℕ) (b : ℕ)
    → from_be_bytes value (bytes ++ b ∷ []) ≡ from_be_bytes value bytes * 256 + b
unfolding from_be_bytes
from_be_bytes-append_last value [] b = refl
from_be_bytes-append_last value (c ∷ bytes) b = from_be_bytes-append_last (value * 256 + c) bytes b

length-to_be_bytes : (width value : ℕ) → length (to_be_bytes width value) ≡ width
unfolding to_be_bytes
length-to_be_bytes zero value = refl
length-to_be_bytes (suc width) value = omega (
  arith,
  length-append (to_be_bytes width (value / 256)) (value % 256 ∷ []),
  length-to_be_bytes width (value / 256),
)

from_be_bytes-to_be_bytes :
    (width value : ℕ) → value < 256 ^ width → from_be_bytes 0 (to_be_bytes width value) ≡ value
unfolding to_be_bytes from_be_bytes
from_be_bytes-to_be_bytes zero value h = omega (arith, h)
from_be_bytes-to_be_bytes (suc width) value h =
    let fits : value / 256 < 256 ^ width = (div-lt_iff_lt-mul (omega arith)).1 (rw pow-suc at h) in
    rw
      (
        from_be_bytes-append_last 0 (to_be_bytes width (value / 256)) (value % 256),
        from_be_bytes-to_be_bytes width (value / 256) fits,
      )
      (omega arith)

-- Every u128 counter that a sample stores is read back as it was.
pub decode_data_units_written-to_be_bytes :
    (hash_id : Bytes) (timestamp : ℤ) (value : ℕ)
    → value < u128_end
    → decode_data_units_written hash_id timestamp (to_be_bytes 16 value) ≡ ok value
unfolding decode_data_units_written
decode_data_units_written-to_be_bytes hash_id timestamp value h =
    rw (length-to_be_bytes 16 value, from_be_bytes-to_be_bytes 16 value h) refl
