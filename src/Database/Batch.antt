-- ===== src/Database/Batch.antt =====
-- The batches of src/database/mod.rs, the contract between the monitors and the database writer.
use nvme_disk_mon.Common.{ℕ, List, Option, Bytes}
use nvme_disk_mon.Common.Int.{ℤ}

pub record DeviceRegistration : Type 0 where
  pub hash_id : Bytes
  pub label : Bytes
  pub serial : Bytes
  pub by_id_path : Bytes
  pub major : ℕ
  pub minor : ℕ

-- `data_units_written_be` holds the 16 bytes of the counter.
pub record SmartSampleBatch : Type 0 where
  pub device_hash_id : Bytes
  pub timestamp : ℤ
  pub data_units_written_be : List ℕ
  pub write_amount_bytes : Option ℤ

pub record WriterAmount : Type 0 where
  pub workload_name : Bytes
  pub write_amount_bytes : ℤ

pub record CompleteDeviceBucket : Type 0 where
  pub device_hash_id : Bytes
  pub amounts : List WriterAmount

pub record WriterBucketBatch : Type 0 where
  pub timestamp : ℤ
  pub devices : List CompleteDeviceBucket

pub data DatabaseBatch : Type 0 where
  register_devices : List DeviceRegistration → DatabaseBatch
  smart_sample : SmartSampleBatch → DatabaseBatch
  writer_bucket : WriterBucketBatch → DatabaseBatch
