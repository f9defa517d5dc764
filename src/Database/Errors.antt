-- ===== src/Database/Errors.antt =====
-- `DbWriteError` of src/database/mod.rs, and the tests of src/database/task.rs that read it.
use Prim.Native.String.{String}
use nvme_disk_mon.Common.{ℕ, Bool, true, false, Option, some, Bytes}
use nvme_disk_mon.Common.Int.{ℤ}

-- The result codes of SQLite that the program tells apart.
pub data ErrorCode : Type 0 where
  database_busy database_locked operation_interrupted system_io_failure : ErrorCode
  cannot_open file_locking_protocol_failed schema_changed other_code : ErrorCode

-- `Box<dyn Error>`: an error of rusqlite, with its `sqlite_error_code()`, or any other.
pub data ErrorSource : Type 0 where
  sqlite : Option ErrorCode → ErrorSource
  other : String → ErrorSource

pub data BatchInvariant : Type 0 where
  unknown_device unsafe_device_identifier invalid_workload_name : BatchInvariant
  mixed_writer_bucket_timestamp unaligned_writer_bucket_timestamp : BatchInvariant
  duplicate_writer_record invalid_writer_amount unexpected_reserved_workload : BatchInvariant
  value_out_of_sqlite_range smart_batch_already_pending : BatchInvariant

pub data DbWriteError : Type 0 where
  open_failed : Bytes → ErrorSource → DbWriteError
  sqlite_version_too_old : Bytes → DbWriteError
  configure : String → ErrorSource → DbWriteError
  foreign_keys_unavailable : DbWriteError
  wal_mode_unavailable : Bytes → DbWriteError
  unsupported_schema_version : ℤ → ℤ → DbWriteError
  unversioned_ndm_layout_present : DbWriteError
  schema_mismatch : Bytes → DbWriteError
  invalid_device_table_identifier reserved_workload_invalid : DbWriteError
  load_recovery_state : Bytes → ErrorSource → DbWriteError
  invalid_stored_smart_counter : Bytes → ℤ → ℕ → DbWriteError
  queue_closed : DbWriteError
  invalid_batch : ℕ → BatchInvariant → DbWriteError
  busy : ℕ → String → ErrorSource → DbWriteError
  transaction : ℕ → String → ErrorSource → DbWriteError
  rollback_failed : ℕ → DbWriteError → ErrorSource → DbWriteError
  commit_outcome_unknown : ℕ → Option ErrorSource → DbWriteError
  commit_acknowledgement_lost : ℕ → DbWriteError
  checkpoint : ErrorSource → DbWriteError
  shutdown_timeout : ℕ → DbWriteError

-- `is_busy_or_locked`, on the code of the error
unfoldable pub is_busy_or_locked : Option ErrorCode → Bool
is_busy_or_locked (some database_busy) = true
is_busy_or_locked (some database_locked) = true
is_busy_or_locked _ = false

unfoldable pub commit_outcome_may_be_unknown : Option ErrorCode → Bool
commit_outcome_may_be_unknown (some operation_interrupted) = true
commit_outcome_may_be_unknown (some system_io_failure) = true
commit_outcome_may_be_unknown (some cannot_open) = true
commit_outcome_may_be_unknown (some file_locking_protocol_failed) = true
commit_outcome_may_be_unknown _ = false

is_recoverable_code : Option ErrorCode → Bool
is_recoverable_code (some operation_interrupted) = true
is_recoverable_code (some system_io_failure) = true
is_recoverable_code (some cannot_open) = true
is_recoverable_code (some file_locking_protocol_failed) = true
is_recoverable_code (some schema_changed) = true
is_recoverable_code _ = false

unfoldable pub is_recoverable_transaction : DbWriteError → Bool
unfolding is_recoverable_code
is_recoverable_transaction (transaction id stage (sqlite code)) = is_recoverable_code code
is_recoverable_transaction _ = false

unfoldable pub is_connection_fatal : DbWriteError → Bool
is_connection_fatal (rollback_failed _ _ _) = true
is_connection_fatal (transaction _ _ _) = true
is_connection_fatal (commit_outcome_unknown _ _) = true
is_connection_fatal queue_closed = true
is_connection_fatal (invalid_batch _ _) = true
is_connection_fatal (open_failed _ _) = true
is_connection_fatal (sqlite_version_too_old _) = true
is_connection_fatal (configure _ _) = true
is_connection_fatal foreign_keys_unavailable = true
is_connection_fatal (wal_mode_unavailable _) = true
is_connection_fatal (unsupported_schema_version _ _) = true
is_connection_fatal unversioned_ndm_layout_present = true
is_connection_fatal (schema_mismatch _) = true
is_connection_fatal invalid_device_table_identifier = true
is_connection_fatal reserved_workload_invalid = true
is_connection_fatal _ = false

-- `map_sqlite_error`
unfoldable pub map_sqlite_error : ℕ → String → Option ErrorCode → DbWriteError
unfolding is_busy_or_locked
map_sqlite_error request_id stage code = elim (is_busy_or_locked code) [
  | true ↦ busy request_id stage (sqlite code)
  | false ↦ transaction request_id stage (sqlite code)
]
