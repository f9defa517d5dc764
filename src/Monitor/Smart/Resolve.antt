-- ===== src/Monitor/Smart/Resolve.antt =====
-- `resolve_nvme_target` and `read_verified_smart` of src/monitor/smart.rs: from the configured path to
-- the controller, and its SMART log. SHA-256 is a parameter; the file system and the controller are
-- records of what their calls give.
pub mod Sound
pub mod Verified
use nvme_disk_mon.Common.{
  ℕ, zero, suc, ◌-◌, Bool, true, false, not, ◌&&◌, ◌||◌, List, [], ◌∷◌, ◌++◌, Option, none, some,
  Bytes, bytes, bytes_key, eqb, Result, ok, err, ◌>>=◌, ◌>>◌, fail_if, ok_or, length, all, is_empty,
  ltb, ◌==◌, if◌then◌else◌, starts_with, strip_prefix, strip_suffix, is_ascii_digit, parse_unsigned,
  ◌^◌,
}
use Prim.Native.String.{String}
use nvme_disk_mon.Common.Int.{ℤ, pos, negsuc, u32_end}
use nvme_disk_mon.Database.Identity.{device_hash_id}
use nvme_disk_mon.Monitor.Device.{NvmeTarget, VerifiedNvmeDevice}
use nvme_disk_mon.Monitor.Smart.{
  linux_device_major, linux_device_minor, both, NvmeSmartHealth, controller_char, parse_smart_log,
}
use nvme_disk_mon.Monitor.Task.{
  SmartReadError, resolve_by_id, not_block_device, device_number_unavailable, read_sysfs,
  topology_not_found, not_nvme_namespace, serial_read, serial_mismatch, insufficient_privileges,
  open_controller, admin_command_io, admin_command_rejected, invalid_smart_log,
}
use nvme_disk_mon.Writer.Names.{is_utf8, print_u32}
use nvme_disk_mon.Monitor.Smart.Sysfs.{
  Found, found, missing, failed, Metadata, FileSystem, join, last_component, file_name, strip_one,
  strip_all, trim, is_nsid, is_namespace_id, is_suffix_of_digits, is_controller_name,
  without_padding, sysfs_serial_matches, check_partition, check_nsid, require_nvme_namespace,
}

-- The text of a PathBuf `SYS_DEV_BLOCK`, and that of `DEV_ROOT`
abbrev pub sys_dev_block : Bytes
sys_dev_block = bytes "/sys/dev/block"

abbrev pub dev_root : Bytes
dev_root = bytes "/dev"

unfoldable pub node_name : ℕ → ℕ → Bytes
unfolding print_u32
node_name major minor = print_u32 major ++ b':' ∷ print_u32 minor

unfoldable pub find_namespace : Found Bytes → Result Bytes SmartReadError
find_namespace (found path) = ok path
find_namespace missing = err topology_not_found
find_namespace failed = err read_sysfs

unfoldable pub canonicalize_sysfs : FileSystem → Bytes → Result Bytes SmartReadError
canonicalize_sysfs fs path = elim (fs.canonicalize path) [
  | found canonical ↦ ok canonical
  | missing ↦ err read_sysfs
  | failed ↦ err read_sysfs
]

unfoldable pub is_nvme : Option Bytes → Bool
is_nvme none = false
is_nvme (some name) = eqb name (bytes "nvme")

unfoldable pub read_serial : FileSystem → Bytes → Result Bytes SmartReadError
read_serial fs path = elim (fs.read path) [
  | found serial ↦ ok serial
  | missing ↦ err serial_read
  | failed ↦ err serial_read
]

-- The numbers of a block device, not both zero
unfoldable pub resolve_numbers : Metadata → Result (ℕ × ℕ) SmartReadError
unfolding both linux_device_major linux_device_minor
resolve_numbers metadata = do
  fail_if (not metadata.is_block_device) not_block_device
  (major, minor) ←
      ok_or (both (linux_device_major metadata.rdev) (linux_device_minor metadata.rdev))
        device_number_unavailable
  fail_if ((major == 0) && (minor == 0)) device_number_unavailable
  ok (major, minor)

-- The path of the controller below /sys and its name
unfoldable pub resolve_controller : FileSystem → ℕ → ℕ → Result (Bytes × Bytes) SmartReadError
unfolding node_name find_namespace require_nvme_namespace canonicalize_sysfs is_nvme file_name join
    is_controller_name
resolve_controller fs major minor = do
  namespace_path ← find_namespace (fs.canonicalize (join sys_dev_block (node_name major minor)))
  require_nvme_namespace fs namespace_path
  controller_sysfs_path ← canonicalize_sysfs fs (join namespace_path (bytes "device"))
  controller_subsystem ← canonicalize_sysfs fs (join controller_sysfs_path (bytes "subsystem"))
  fail_if (not (is_nvme (file_name controller_subsystem))) not_nvme_namespace
  controller_name ← ok_or (file_name controller_sysfs_path) topology_not_found
  fail_if (not (is_controller_name controller_name)) topology_not_found
  ok (controller_sysfs_path, controller_name)

unfoldable pub check_serial : FileSystem → Bytes → Bytes → Result (Unit {0}) SmartReadError
unfolding read_serial sysfs_serial_matches join
check_serial fs controller_sysfs_path expected_serial = do
  serial_bytes ← read_serial fs (join controller_sysfs_path (bytes "serial"))
  serial_matches ← sysfs_serial_matches serial_bytes expected_serial
  fail_if (not serial_matches) serial_mismatch

-- An error of `open` or of the ioctl: EACCES and EPERM are `permission`.
pub data IoFailure : Type 0 where
  permission other_failure : IoFailure

unfoldable pub refused : SmartReadError → IoFailure → SmartReadError
refused other permission = insufficient_privileges
refused other other_failure = other

unfoldable pub map_err :
    {A : Type 0} → SmartReadError → Result A IoFailure → Result A SmartReadError
unfolding refused
map_err other (ok a) = ok a
map_err other (err failure) = err (refused other failure)

pub record Controller : Type 0 where
  pub open_path : Bytes → Result (Unit {0}) IoFailure
  pub is_char_device : Bytes → Option Bool
  -- `issue_smart_admin_command`: the status, and the 512 bytes that the buffer then holds
  pub command : Bytes → Result (ℤ × Bytes) IoFailure
  pub sampled_at : Result ℤ String

unfoldable pub check_char_device : Option Bool → Result (Unit {0}) SmartReadError
check_char_device none = err open_controller
check_char_device (some false) = err topology_not_found
check_char_device (some true) = ok tt

-- A status other than 0 is an error, whichever it is.
unfoldable pub check_status : ℤ → Result (Unit {0}) SmartReadError
check_status (pos zero) = ok tt
check_status (pos (suc n)) =
    if ltb (suc n) (2 ^ 16)
    then err (admin_command_rejected (suc n))
    else err (invalid_smart_log "command status")
check_status (negsuc n) = err (invalid_smart_log "command status")

unfoldable pub read_smart_from_resolved :
    Controller → VerifiedNvmeDevice → Result NvmeSmartHealth SmartReadError
unfolding map_err check_char_device check_status
read_smart_from_resolved controller device = do
  map_err open_controller (controller.open_path device.controller_path)
  check_char_device (controller.is_char_device device.controller_path)
  (status, raw_log) ← map_err admin_command_io (controller.command device.controller_path)
  check_status status
  parse_smart_log raw_log controller_char controller.sampled_at

module _ (sha256 : Bytes → List ℕ) where
  unfoldable pub resolve_nvme_target :
      FileSystem → NvmeTarget → Result VerifiedNvmeDevice SmartReadError
  unfolding resolve_numbers resolve_controller check_serial device_hash_id join
  resolve_nvme_target fs target = do
    metadata ← ok_or (fs.metadata target.configured_path) resolve_by_id
    (major, minor) ← resolve_numbers metadata
    (controller_sysfs_path, controller_name) ← resolve_controller fs major minor
    check_serial fs controller_sysfs_path target.expected_serial
    ok (record {
      configured_path = target.configured_path;
      namespace_major = major;
      namespace_minor = minor;
      controller_path = join dev_root controller_name;
      hash_id = device_hash_id sha256 target.expected_serial target.configured_path;
    })

  unfoldable pub read_verified_smart :
      FileSystem
      → Controller
      → NvmeTarget
      → Result (VerifiedNvmeDevice × NvmeSmartHealth) SmartReadError
  read_verified_smart fs controller target = do
    device ← resolve_nvme_target fs target
    health ← read_smart_from_resolved controller device
    ok (device, health)
