-- ===== src/Database/Validate.antt =====
-- `validate_batch` of src/database/task.rs: what the writer demands of a batch before it opens a
-- transaction. The set of devices is the keys of `tables`.
pub mod Accepts
use nvme_disk_mon.Common.{
  ℕ, zero, ◌%◌, Bool, true, false, not, ◌&&◌, ◌||◌, List, [], ◌∷◌, Option, none, some, Bytes, bytes,
  bytes_key, Result, ok, err, ◌>>=◌, ◌>>◌, fail_if, is_some, is_empty, any, all, length, contains,
  ◌==◌, leb, is_ascii_digit, is_ascii_control, starts_with, strip_prefix, split_once,
  parse_unsigned, if◌then◌else◌,
}
use nvme_disk_mon.Common.Int.{ℤ, pos, negsuc, is_negative, u32_end}
use nvme_disk_mon.Database.Batch.{
  SmartSampleBatch, WriterAmount, CompleteDeviceBucket, WriterBucketBatch, DatabaseBatch,
}
use nvme_disk_mon.Database.Errors.{
  DbWriteError, BatchInvariant, invalid_batch, unknown_device, unsafe_device_identifier,
  invalid_workload_name, unaligned_writer_bucket_timestamp, duplicate_writer_record,
  invalid_writer_amount, unexpected_reserved_workload, value_out_of_sqlite_range,
}

-- `is_valid_hash_id` of src/database/schema.rs, and the same function of src/monitor/smart.rs.
unfoldable pub is_hex_digit : ℕ → Bool
unfolding is_ascii_digit
is_hex_digit c = is_ascii_digit c || (leb b'a' c && leb c b'f')

unfoldable pub is_valid_hash_id : Bytes → Bool
is_valid_hash_id hash_id = length hash_id == 64 && all is_hex_digit hash_id

unfoldable pub is_valid_user_unit : Option (Bytes × Bytes) → Bool
is_valid_user_unit none = false
is_valid_user_unit (some (uid, unit)) = not (is_empty unit) && is_some (parse_unsigned u32_end uid)

-- The last test of `is_valid_workload_name`.
unfoldable pub is_valid_cgroup_name : Bytes → Bool
is_valid_cgroup_name name = elim (strip_prefix (bytes "cgroup:") name) [
  | none ↦ false
  | some path ↦ starts_with (bytes "/") path
]

unfoldable pub is_valid_workload_name : Bytes → Bool
unfolding is_valid_user_unit is_valid_cgroup_name
is_valid_workload_name name =
    if is_empty name || any is_ascii_control name
    then false
    else elim (strip_prefix (bytes "systemd:system:") name) [
      | some unit ↦ not (is_empty unit)
      | none ↦ elim (strip_prefix (bytes "systemd:user:") name) [
        | some rest ↦ is_valid_user_unit (split_once b':' rest)
        | none ↦ is_valid_cgroup_name name
      ]
    ]

unfoldable pub is_below_zero : Option ℤ → Bool
is_below_zero none = false
is_below_zero (some amount) = is_negative amount

unfoldable pub validate_smart_sample :
    ℕ → SmartSampleBatch → List Bytes → Result (Unit {0}) DbWriteError
unfolding is_below_zero
validate_smart_sample request_id sample tables = do
  fail_if (not (is_valid_hash_id sample.device_hash_id))
      (invalid_batch request_id unsafe_device_identifier)
  fail_if (not (contains tables sample.device_hash_id)) (invalid_batch request_id unknown_device)
  fail_if (is_negative sample.timestamp || is_below_zero sample.write_amount_bytes)
      (invalid_batch request_id value_out_of_sqlite_range)

-- `timestamp < 0 || timestamp % 60_000 != 0`
unfoldable pub is_unaligned : ℤ → Bool
is_unaligned (pos n) = not (n % 60_000 == 0)
is_unaligned (negsuc n) = true

unfoldable pub is_not_positive : ℤ → Bool
is_not_positive (pos n) = n == 0
is_not_positive (negsuc n) = true

-- The loop over the amounts of one device; `workloads` holds the names met so far.
unfoldable pub validate_amounts :
    ℕ → List Bytes → List WriterAmount → Result (Unit {0}) DbWriteError
unfolding is_not_positive
validate_amounts request_id workloads [] = ok tt
validate_amounts request_id workloads (amount ∷ amounts) =
    let rest = validate_amounts request_id (amount.workload_name ∷ workloads) amounts in
    do
      fail_if (starts_with (bytes "ndm:") amount.workload_name)
          (invalid_batch request_id unexpected_reserved_workload)
      fail_if (not (is_valid_workload_name amount.workload_name))
          (invalid_batch request_id invalid_workload_name)
      fail_if (is_not_positive amount.write_amount_bytes)
          (invalid_batch request_id invalid_writer_amount)
      fail_if (contains workloads amount.workload_name)
          (invalid_batch request_id duplicate_writer_record)
      rest

-- The loop over the devices; `devices` holds the hashes met so far.
unfoldable pub validate_devices :
    ℕ → List Bytes → List Bytes → List CompleteDeviceBucket → Result (Unit {0}) DbWriteError
validate_devices request_id tables devices [] = ok tt
validate_devices request_id tables devices (device ∷ buckets) =
    let rest = validate_devices request_id tables (device.device_hash_id ∷ devices) buckets in
    do
      fail_if (not (is_valid_hash_id device.device_hash_id))
          (invalid_batch request_id unsafe_device_identifier)
      fail_if (not (contains tables device.device_hash_id))
          (invalid_batch request_id unknown_device)
      fail_if (contains devices device.device_hash_id)
          (invalid_batch request_id duplicate_writer_record)
      validate_amounts request_id [] device.amounts
      rest

unfoldable pub validate_writer_bucket :
    ℕ → WriterBucketBatch → List Bytes → Result (Unit {0}) DbWriteError
validate_writer_bucket request_id bucket tables = do
  fail_if (is_unaligned bucket.timestamp)
      (invalid_batch request_id unaligned_writer_bucket_timestamp)
  validate_devices request_id tables [] bucket.devices
