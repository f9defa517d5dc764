-- ===== src/Database/Validate/Accepts.antt =====
-- The batches that `validate_batch` accepts, stated without the order of its tests.
use nvme_disk_mon.Common.{
  ℕ, ◌≡◌, ◌↔◌, refl, true, false, List, [], ◌∷◌, map, Bytes, bytes, bytes_key, ok, contains,
  starts_with, All, Distinct, Apart, Apart-cons, Apart-nil, arith,
}
use nvme_disk_mon.Database.Batch.{WriterAmount, CompleteDeviceBucket, WriterBucketBatch}
use nvme_disk_mon.Database.Validate.{
  is_valid_hash_id, is_valid_workload_name, is_unaligned, is_not_positive, validate_amounts,
  validate_devices, validate_writer_bucket,
}

-- One amount of a bucket: a name outside the reserved space, in a known form, and bytes above zero.
pub record IsGoodAmount (amount : WriterAmount) : Type 0 where
  pub not_reserved : starts_with (bytes "ndm:") amount.workload_name ≡ false
  pub named : is_valid_workload_name amount.workload_name ≡ true
  pub positive : is_not_positive amount.write_amount_bytes ≡ false

abbrev pub workload_names : List WriterAmount → List Bytes
workload_names = map (λ amount. amount.workload_name)

pub record IsGoodDevice (tables : List Bytes) (device : CompleteDeviceBucket) : Type 0 where
  pub safe : is_valid_hash_id device.device_hash_id ≡ true
  pub known : contains tables device.device_hash_id ≡ true
  pub amounts : All IsGoodAmount device.amounts
  pub distinct : Distinct (workload_names device.amounts)

abbrev pub device_ids : List CompleteDeviceBucket → List Bytes
device_ids = map (λ device. device.device_hash_id)

-- What the database promises to accept.
pub record IsGoodBucket (tables : List Bytes) (bucket : WriterBucketBatch) : Type 0 where
  pub aligned : is_unaligned bucket.timestamp ≡ false
  pub devices : All (IsGoodDevice tables) bucket.devices
  pub distinct : Distinct (device_ids bucket.devices)

abbrev GoodAmounts : List Bytes → List WriterAmount → Type 0
GoodAmounts seen amounts =
    All IsGoodAmount amounts
    × Distinct (workload_names amounts)
    × Apart seen (workload_names amounts)

amounts-ok :
    (id : ℕ) (seen : List Bytes) (amounts : List WriterAmount)
    → (validate_amounts id seen amounts ≡ ok tt) ↔ GoodAmounts seen amounts
unfolding validate_amounts
amounts-ok id seen [] = (λ _. (tt, tt, tt), λ _. refl)
amounts-ok id seen (a ∷ rest) =
    let ih = amounts-ok id (a.workload_name ∷ seen) rest in
    let apart = Apart-cons seen a.workload_name (workload_names rest) in
    (λ h. ground (arith, ih.0, apart.0), λ h. ground (arith, ih.1, apart.1))

abbrev GoodDevices : List Bytes → List Bytes → List CompleteDeviceBucket → Type 0
GoodDevices tables seen devices =
    All (IsGoodDevice tables) devices
    × Distinct (device_ids devices)
    × Apart seen (device_ids devices)

device-ok :
    (id : ℕ) (device : CompleteDeviceBucket)
    → (validate_amounts id [] device.amounts ≡ ok tt)
      ↔ (All IsGoodAmount device.amounts × Distinct (workload_names device.amounts))
device-ok id device =
    let loop = amounts-ok id [] device.amounts in
    (
      λ h. ((loop.0 h).0, (loop.0 h).1),
      λ h. loop.1 (h.0, h.1, Apart-nil (workload_names device.amounts)),
    )

devices-ok :
    (id : ℕ) (tables seen : List Bytes) (devices : List CompleteDeviceBucket)
    → (validate_devices id tables seen devices ≡ ok tt) ↔ GoodDevices tables seen devices
unfolding validate_devices
devices-ok id tables seen [] = (λ _. (tt, tt, tt), λ _. refl)
devices-ok id tables seen (d ∷ rest) =
    let ih = devices-ok id tables (d.device_hash_id ∷ seen) rest in
    let apart = Apart-cons seen d.device_hash_id (device_ids rest) in
    let own = device-ok id d in
    (λ h. ground (arith, ih.0, apart.0, own.0), λ h. ground (arith, ih.1, apart.1, own.1))

-- A writer bucket is accepted exactly when its time is a full minute from 0 on, its devices are
-- known, safe and distinct, and the amounts of each device are positive, with distinct valid names.
pub validate_writer_bucket_iff :
    (id : ℕ) (bucket : WriterBucketBatch) (tables : List Bytes)
    → (validate_writer_bucket id bucket tables ≡ ok tt) ↔ IsGoodBucket tables bucket
unfolding validate_writer_bucket
validate_writer_bucket_iff id bucket tables =
    let loop = devices-ok id tables [] bucket.devices in
    (
      λ h. ground (arith, loop.0),
      λ h. ground (arith, loop.1, Apart-nil (device_ids bucket.devices)),
    )
