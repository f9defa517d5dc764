-- ===== src/Database/IdentityTests.antt =====
-- A device with a digest of zeros, and the theorems at it.
use nvme_disk_mon.Common.{
  ℕ, zero, suc, ◌++◌, ◌≡◌, refl, true, List, [], ◌∷◌, Bytes, bytes, bytes_key, ok, arith,
  is_ascii_digit,
}
use nvme_disk_mon.Database.Batch.{DeviceRegistration}
use nvme_disk_mon.Database.Validate.{is_valid_hash_id, is_hex_digit}
use nvme_disk_mon.Database.Identity.{device_hash_id, device_table_names, DeviceTableNames}
use nvme_disk_mon.Database.Identity.Accepts.{
  IsDigest, device_hash_id-valid, AreQuoted, device_table_names-AreQuoted,
}

abbrev repeat : ℕ → ℕ → List ℕ
repeat c zero = []
repeat c (suc n) = c ∷ repeat c n

-- A function with digests of the documented form.
abbrev zeros : Bytes → List ℕ
zeros _ = repeat 0 32

zeros-IsDigest : (input : Bytes) → IsDigest (zeros input)
zeros-IsDigest input = record { size = refl; small = ground arith }

device_hash_id-valid_example :
    is_valid_hash_id (device_hash_id zeros (bytes "s") (bytes "/dev/a")) ≡ true
device_hash_id-valid_example =
    device_hash_id-valid zeros (bytes "s") (bytes "/dev/a") zeros-IsDigest

abbrev hash_a : Bytes
hash_a = repeat b'a' 64

abbrev names_a : DeviceTableNames
names_a = record {
  hash_id = hash_a;
  data_identifier = bytes "\"d_" ++ hash_a ++ bytes "_data\"";
  writer_history_identifier = bytes "\"d_" ++ hash_a ++ bytes "_writer_history\"";
}

named : device_table_names hash_a ≡ ok names_a
unfolding device_table_names is_valid_hash_id is_hex_digit is_ascii_digit
named = refl

device_table_names-AreQuoted_example : AreQuoted names_a
device_table_names-AreQuoted_example = device_table_names-AreQuoted hash_a names_a named

abbrev registration_a : DeviceRegistration
registration_a = record {
  hash_id = repeat b'0' 64;
  label = bytes "a";
  serial = bytes "s";
  by_id_path = bytes "/dev/a";
  major = 259;
  minor = 0;
}
