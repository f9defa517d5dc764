-- ===== src/Monitor/Device/Configured.antt =====
-- The devices that `validate_config` of src/config.rs accepts are devices that `SmartMonitorDevice::new`
-- of src/monitor/mod.rs accepts.
use nvme_disk_mon.Common.{
  ℕ, ◌*◌, ◌<◌, ◌^◌, ◌≡◌, ◌≢◌, true, List, Option, none, some, Bytes, bytes_key, ok, arith,
}
use nvme_disk_mon.Common.Int.{pos}
use nvme_disk_mon.Config.{DiskConfig}
use nvme_disk_mon.Config.Check.Accepts.{IsValidDisk}
use nvme_disk_mon.Database.Identity.{device_hash_id}
use nvme_disk_mon.Database.Identity.Accepts.{IsDigest, device_hash_id-valid}
use nvme_disk_mon.Monitor.Delta.{SmartBaseline}
use nvme_disk_mon.Monitor.Device.{
  VerifiedNvmeDevice, SmartMonitorDevice, window_ms, window_minutes, non_zero, new,
}
use nvme_disk_mon.Monitor.Threshold.{gib_floor_bytes}

window_ms-lem : (hours : ℕ) → hours * 60 < 2 ^ 32 → window_ms hours ≡ some (pos (hours * 3_600_000))
unfolding window_ms
window_ms-lem hours h = ground arith

window_minutes-lem :
    (hours : ℕ) → 0 < hours → hours * 60 < 2 ^ 32 → window_minutes hours ≡ some (hours * 60)
unfolding window_minutes non_zero
window_minutes-lem hours p h = ground arith

-- The device that starts, before its first reading.
abbrev pub configured : DiskConfig → VerifiedNvmeDevice → Option SmartBaseline → SmartMonitorDevice
configured disk verified recovered = record {
  label = disk.label;
  target = record { configured_path = disk.path; expected_serial = disk.serial };
  verified = verified;
  expected_span_ms = pos (disk.detect_window_hr * 3_600_000);
  lookback_minutes = disk.detect_window_hr * 60;
  threshold_gib = disk.w_delta_threshold_gib;
  baseline = recovered;
  pending = none;
  next_due_timestamp = pos 0;
  read_failures = 0;
  active = true;
}

-- Where each digest has 32 bytes, a disk of a valid configuration whose path and hash the verified
-- device has is taken by the monitor, as a device with the window in milliseconds and in minutes,
-- the recovered baseline and nothing that waits; and its threshold has a floor in bytes.
pub new-configured :
    (sha256 : Bytes → List ℕ) (disk : DiskConfig) (verified : VerifiedNvmeDevice)
    (recovered : Option SmartBaseline)
    → ((input : Bytes) → IsDigest (sha256 input))
    → IsValidDisk disk
    → verified.configured_path ≡ disk.path
    → verified.hash_id ≡ device_hash_id sha256 disk.serial disk.path
    → (new sha256 disk verified recovered ≡ ok (configured disk verified recovered))
      × (gib_floor_bytes disk.w_delta_threshold_gib ≢ none)
unfolding new gib_floor_bytes
new-configured sha256 disk verified recovered digests valid path hash =
    let hours = disk.detect_window_hr in
    let known = device_hash_id-valid sha256 disk.serial disk.path digests in
    let ms = window_ms-lem hours valid.window_minutes in
    let minutes = window_minutes-lem hours valid.window_positive valid.window_minutes in
    (
      ground (arith, ms, minutes, known),
      ground (arith, valid.threshold_finite, valid.threshold_not_below_zero),
    )
