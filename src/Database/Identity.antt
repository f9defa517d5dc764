-- ===== src/Database/Identity.antt =====
-- `device_hash_id` of src/monitor/smart.rs, and `device_hash_id`, `device_table_names` and
-- `validate_device_registrations` of src/database/schema.rs, with `validate_batch` of
-- src/database/task.rs. SHA-256 is a parameter; the paths are
-- UTF-8, as those of a configuration are.
pub mod Accepts
use nvme_disk_mon.Common.{
  ℕ, ◌+◌, ◌-◌, ◌/◌, ◌%◌, Bool, true, false, not, ◌||◌, List, [], ◌∷◌, ◌++◌, Bytes, bytes, bytes_key,
  eqb, Result, ok, err, ◌>>=◌, ◌>>◌, fail_if, contains, ltb, if◌then◌else◌,
}
use nvme_disk_mon.Database.Batch.{
  DeviceRegistration, DatabaseBatch, register_devices, smart_sample, writer_bucket,
}
use nvme_disk_mon.Database.Errors.{
  DbWriteError, invalid_batch, unsafe_device_identifier, duplicate_writer_record,
  invalid_device_table_identifier,
}
use nvme_disk_mon.Database.Validate.{
  is_valid_hash_id, validate_smart_sample, validate_writer_bucket,
}

-- `LOWERCASE_HEX[n]`
unfoldable pub lowercase_hex : ℕ → ℕ
lowercase_hex n = if ltb n 10 then b'0' + n else b'a' + (n - 10)

unfoldable pub encode : List ℕ → Bytes
unfolding lowercase_hex
encode [] = []
encode (byte ∷ digest) = lowercase_hex (byte / 16) ∷ lowercase_hex (byte % 16) ∷ encode digest

pub record DeviceTableNames : Type 0 where
  pub hash_id : Bytes
  pub data_identifier : Bytes
  pub writer_history_identifier : Bytes

unfoldable pub device_table_names : Bytes → Result DeviceTableNames DbWriteError
device_table_names hash_id =
    if not (is_valid_hash_id hash_id)
    then err invalid_device_table_identifier
    else ok (record {
      hash_id = hash_id;
      data_identifier = bytes "\"d_" ++ hash_id ++ bytes "_data\"";
      writer_history_identifier = bytes "\"d_" ++ hash_id ++ bytes "_writer_history\"";
    })

module _ (sha256 : Bytes → List ℕ) where
  unfoldable pub device_hash_id : Bytes → Bytes → Bytes
  unfolding encode
  device_hash_id serial path = encode (sha256 (serial ++ 0 ∷ path))

  -- The loop; `hashes` and `paths` hold those met so far.
  unfoldable pub validate_registrations :
      ℕ → List Bytes → List Bytes → List DeviceRegistration → Result (Unit {0}) DbWriteError
  validate_registrations request_id hashes paths [] = ok tt
  validate_registrations request_id hashes paths (device ∷ devices) =
      let rest =
        validate_registrations request_id (device.hash_id ∷ hashes) (device.by_id_path ∷ paths)
          devices in
      do
        fail_if
            (not (is_valid_hash_id device.hash_id)
              || not (eqb (device_hash_id device.serial device.by_id_path) device.hash_id))
            (invalid_batch request_id unsafe_device_identifier)
        fail_if (contains hashes device.hash_id || contains paths device.by_id_path)
            (invalid_batch request_id duplicate_writer_record)
        rest

  unfoldable pub validate_device_registrations :
      List DeviceRegistration → ℕ → Result (Unit {0}) DbWriteError
  unfolding validate_registrations
  validate_device_registrations devices request_id = validate_registrations request_id [] [] devices

  unfoldable pub validate_batch : ℕ → DatabaseBatch → List Bytes → Result (Unit {0}) DbWriteError
  unfolding validate_device_registrations
  validate_batch request_id (register_devices devices) tables =
      validate_device_registrations devices request_id
  validate_batch request_id (smart_sample sample) tables =
      validate_smart_sample request_id sample tables
  validate_batch request_id (writer_bucket bucket) tables =
      validate_writer_bucket request_id bucket tables
