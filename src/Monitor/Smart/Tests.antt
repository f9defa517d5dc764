-- ===== src/Monitor/Smart/Tests.antt =====
-- A disk below /sys with its SMART log, and the theorems at it.
use nvme_disk_mon.Common.{
  ℕ, zero, suc, ◌≡◌, ◌↔◌, arith, refl, true, false, List, [], ◌∷◌, ◌++◌, some, Bytes, bytes,
  bytes_key, eqb, ok, err, if◌then◌else◌, Bytes-discrete, ℕ_discrete, strip_prefix, strip_suffix,
  is_ascii_digit, parse_unsigned, parse_digits,
}
use nvme_disk_mon.Common.Int.{pos}
use nvme_disk_mon.Database.Identity.{device_hash_id, encode}
use nvme_disk_mon.Monitor.Device.{NvmeTarget, VerifiedNvmeDevice}
use nvme_disk_mon.Monitor.Smart.{
  masked, to_u32, linux_device_major, linux_device_minor, both, linux_device_number, from_le_bytes,
  read_u128_le, read_u16_le, nonzero_u128, controller_char, temperature_sensors, health_of_log,
  parse_smart_log, health_read,
}
use nvme_disk_mon.Monitor.Smart.Numbers.{linux_device_number_iff}
use nvme_disk_mon.Monitor.Smart.Resolve.{
  node_name, find_namespace, canonicalize_sysfs, is_nvme, read_serial, resolve_numbers,
  resolve_controller, check_serial, Controller, map_err, check_char_device, check_status,
  read_smart_from_resolved, resolve_nvme_target, read_verified_smart,
}
use nvme_disk_mon.Monitor.Smart.Resolve.Verified.{
  IsVerified, IsSmartLog, read_verified_smart-IsVerified,
}
use nvme_disk_mon.Monitor.Smart.Sysfs.{
  Found, found, missing, FileSystem, join, last_component, file_name, strip_one, strip_all, trim,
  is_nsid, is_namespace_id, is_suffix_of_digits, is_controller_name, without_padding,
  sysfs_serial_matches, check_partition, check_nsid, require_nvme_namespace,
}
use nvme_disk_mon.Monitor.Task.{invalid_smart_log}
use nvme_disk_mon.Writer.Names.{is_utf8, is_utf8_from, print_u32, decimal}

-- The number 259:2
abbrev rdev_a : ℕ
rdev_a = 66306

numbers_a : linux_device_number rdev_a ≡ some (259, 2)
unfolding linux_device_number masked to_u32 both
numbers_a = refl

abbrev canonicalize_a : Bytes → Found Bytes
canonicalize_a path =
    if eqb path (bytes "/sys/dev/block/259:2")
    then found (bytes "/sys/n/nvme0n1")
    else (if eqb path (bytes "/sys/n/nvme0n1/device")
        then found (bytes "/sys/c/nvme0")
        else (if eqb path (bytes "/sys/c/nvme0/subsystem")
            then found (bytes "/sys/class/nvme")
            else missing))

abbrev read_a : Bytes → Found Bytes
read_a path =
    if eqb path (bytes "/sys/n/nvme0n1/nsid")
    then found (bytes "1\n")
    else (if eqb path (bytes "/sys/c/nvme0/serial") then found (bytes "S1  \n") else missing)

abbrev fs_a : FileSystem
fs_a = record {
  metadata = λ path. some (record { is_block_device = true; rdev = rdev_a });
  canonicalize = canonicalize_a;
  try_exists = λ path. some false;
  read = read_a;
}

abbrev target_a : NvmeTarget
target_a = record { configured_path = bytes "/dev/disk/by-id/nvme-a"; expected_serial = bytes "S1" }

abbrev zeros : ℕ → Bytes
zeros zero = []
zeros (suc n) = 0 ∷ zeros n

-- 300 Kelvin, all the spare, and 517 data units written
abbrev raw_log_a : Bytes
raw_log_a = 0 ∷ 44 ∷ 1 ∷ 100 ∷ 10 ∷ 0 ∷ zeros 42 ++ 5 ∷ 2 ∷ zeros 462

abbrev controller_a : Bytes → Controller
controller_a raw_log = record {
  open_path = λ path. ok tt;
  is_char_device = λ path. some true;
  command = λ path. ok (pos 0, raw_log);
  sampled_at = ok (pos 1000);
}

abbrev sha256_a : Bytes → List ℕ
sha256_a message = 171 ∷ []

abbrev device_a : VerifiedNvmeDevice
device_a = record {
  configured_path = bytes "/dev/disk/by-id/nvme-a";
  namespace_major = 259;
  namespace_minor = 2;
  controller_path = bytes "/dev/nvme0";
  hash_id = bytes "ab";
}

reads_units :
    health_read (health_of_log raw_log_a controller_char (ok (pos 1000)))
    ≡ record { sampled_ms = ok (pos 1000); data_units_written = some 517 }
unfolding health_read health_of_log read_u128_le read_u16_le nonzero_u128 temperature_sensors
    from_le_bytes
reads_units = refl

too_much_spare :
    parse_smart_log (0 ∷ 44 ∷ 1 ∷ 101 ∷ zeros 508) controller_char (ok (pos 1000))
    ≡ err (invalid_smart_log "available spare percentage")
unfolding parse_smart_log
too_much_spare = refl

resolves : resolve_nvme_target sha256_a fs_a target_a ≡ ok device_a
unfolding resolve_nvme_target resolve_numbers resolve_controller check_serial device_hash_id encode
    join masked to_u32 linux_device_major linux_device_minor both node_name find_namespace
    canonicalize_sysfs is_nvme read_serial last_component file_name strip_one strip_all trim is_nsid
    is_namespace_id is_suffix_of_digits is_controller_name without_padding sysfs_serial_matches
    check_partition check_nsid require_nvme_namespace is_utf8 is_utf8_from print_u32 decimal
    Bytes-discrete ℕ_discrete strip_prefix strip_suffix is_ascii_digit parse_unsigned parse_digits
resolves = refl

reads :
    read_smart_from_resolved (controller_a raw_log_a) device_a
    ≡ ok (health_of_log raw_log_a controller_char (ok (pos 1000)))
unfolding read_smart_from_resolved map_err check_char_device check_status parse_smart_log
reads = refl

reads_device :
    read_verified_smart sha256_a fs_a (controller_a raw_log_a) target_a
    ≡ ok (device_a, health_of_log raw_log_a controller_char (ok (pos 1000)))
unfolding read_verified_smart
reads_device = cc (resolves, reads)

read_verified_smart-IsVerified_example :
    IsVerified sha256_a fs_a target_a device_a
    × IsSmartLog
        (controller_a raw_log_a)
        (bytes "/dev/nvme0")
        (health_of_log raw_log_a controller_char (ok (pos 1000)))
read_verified_smart-IsVerified_example =
    read_verified_smart-IsVerified sha256_a fs_a (controller_a raw_log_a) target_a device_a
      (health_of_log raw_log_a controller_char (ok (pos 1000))) reads_device

linux_device_number_iff_example :
    (linux_device_number rdev_a ≡ both (linux_device_major rdev_a) (linux_device_minor rdev_a))
    ↔ (rdev_a ≡ rdev_a)
linux_device_number_iff_example = linux_device_number_iff rdev_a rdev_a (omega arith) (omega arith)
