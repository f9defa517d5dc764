-- ===== src/Monitor/Smart.antt =====
-- The numbers and the log of src/monitor/smart.rs, with the device numbers of src/writer/history.rs.
pub mod Numbers
pub mod Sysfs
pub mod Resolve
mod Tests
use Prim.Native.String.{String}
use nvme_disk_mon.Common.{
  ℕ, zero, suc, ◌+◌, ◌-◌, ◌*◌, ◌/◌, ◌%◌, ◌^◌, Bool, List, [], ◌∷◌, Option, none, some, Bytes,
  Result, ok, err, ◌>>=◌, ◌>>◌, fail_if, take, drop, get_or, ltb, ◌==◌, if◌then◌else◌,
}
use nvme_disk_mon.Common.Int.{ℤ}
use nvme_disk_mon.Monitor.Task.{SmartReadError, invalid_smart_log, Health}

-- A mask that keeps the bits from `low` on, `width` of them: `d & mask`
unfoldable pub masked : ℕ → ℕ → ℕ → ℕ
masked low width d = d / 2 ^ low % 2 ^ width * 2 ^ low

-- `u32::try_from(n).ok()`
unfoldable pub to_u32 : ℕ → Option ℕ
to_u32 n = if ltb n (2 ^ 32) then some n else none

-- The two parts share no bit, so that `|` is their sum.
unfoldable pub linux_device_major : ℕ → Option ℕ
unfolding masked to_u32
linux_device_major device = to_u32 (masked 8 12 device / 2 ^ 8 + masked 44 20 device / 2 ^ 32)

unfoldable pub linux_device_minor : ℕ → Option ℕ
unfolding masked to_u32
linux_device_minor device = to_u32 (masked 0 8 device + masked 20 24 device / 2 ^ 12)

unfoldable pub both : Option ℕ → Option ℕ → Option (ℕ × ℕ)
both (some a) (some b) = some (a, b)
both _ _ = none

-- Of src/writer/history.rs
unfoldable pub linux_device_number : ℕ → Option (ℕ × ℕ)
unfolding masked to_u32 both
linux_device_number device =
    both (to_u32 (masked 0 12 (device / 2 ^ 8) + masked 12 20 (device / 2 ^ 32)))
      (to_u32 (masked 0 8 device + masked 8 24 (device / 2 ^ 12)))

-- `from_le_bytes` of an unsigned type
unfoldable pub from_le_bytes : Bytes → ℕ
from_le_bytes [] = 0
from_le_bytes (b ∷ bs) = b + 256 * from_le_bytes bs

-- The log has 512 bytes, and no offset below is out of range.
unfoldable pub read_u128_le : Bytes → ℕ → ℕ
unfolding from_le_bytes
read_u128_le raw_log offset = from_le_bytes (take 16 (drop offset raw_log))

unfoldable pub read_u16_le : Bytes → ℕ → ℕ
unfolding from_le_bytes
read_u16_le raw_log offset =
    from_le_bytes (get_or raw_log offset 0 ∷ get_or raw_log (offset + 1) 0 ∷ [])

unfoldable pub nonzero_u128 : ℕ → Option ℕ
nonzero_u128 value = if value == 0 then none else some value

pub data SmartEndpoint : Type 0 where
  controller_char namespace_block : SmartEndpoint

-- `sampled_at` is the time as `system_time_milliseconds` gives it.
pub record NvmeSmartHealth : Type 0 where
  pub endpoint : SmartEndpoint
  pub sampled_at : Result ℤ String
  pub raw_log : Bytes
  pub critical_warning : ℕ
  pub temperature_kelvin : ℕ
  pub available_spare_pct : ℕ
  pub spare_threshold_pct : ℕ
  pub percentage_used : ℕ
  pub data_units_read : Option ℕ
  pub data_units_written : Option ℕ
  pub host_read_commands : ℕ
  pub host_write_commands : ℕ
  pub controller_busy_minutes : ℕ
  pub power_cycles : ℕ
  pub power_on_hours : ℕ
  pub unsafe_shutdowns : ℕ
  pub media_errors : ℕ
  pub error_log_entries : ℕ
  pub temperature_sensors_kelvin : List ℕ

-- The sensors from `index` on, `n` of them
unfoldable pub temperature_sensors : Bytes → ℕ → ℕ → List ℕ
unfolding read_u16_le
temperature_sensors raw_log index zero = []
temperature_sensors raw_log index (suc n) =
    read_u16_le raw_log (200 + index * 2) ∷ temperature_sensors raw_log (index + 1) n

unfoldable pub health_of_log : Bytes → SmartEndpoint → Result ℤ String → NvmeSmartHealth
unfolding read_u128_le read_u16_le nonzero_u128 temperature_sensors
health_of_log raw_log endpoint sampled_at = record {
  endpoint = endpoint;
  sampled_at = sampled_at;
  raw_log = raw_log;
  critical_warning = get_or raw_log 0 0;
  temperature_kelvin = read_u16_le raw_log 1;
  available_spare_pct = get_or raw_log 3 0;
  spare_threshold_pct = get_or raw_log 4 0;
  percentage_used = get_or raw_log 5 0;
  data_units_read = nonzero_u128 (read_u128_le raw_log 32);
  data_units_written = nonzero_u128 (read_u128_le raw_log 48);
  host_read_commands = read_u128_le raw_log 64;
  host_write_commands = read_u128_le raw_log 80;
  controller_busy_minutes = read_u128_le raw_log 96;
  power_cycles = read_u128_le raw_log 112;
  power_on_hours = read_u128_le raw_log 128;
  unsafe_shutdowns = read_u128_le raw_log 144;
  media_errors = read_u128_le raw_log 160;
  error_log_entries = read_u128_le raw_log 176;
  temperature_sensors_kelvin = temperature_sensors raw_log 0 8;
}

unfoldable pub parse_smart_log :
    Bytes → SmartEndpoint → Result ℤ String → Result NvmeSmartHealth SmartReadError
parse_smart_log raw_log endpoint sampled_at = do
  fail_if (ltb 100 (get_or raw_log 3 0)) (invalid_smart_log "available spare percentage")
  fail_if (ltb 100 (get_or raw_log 4 0)) (invalid_smart_log "spare threshold percentage")
  ok (health_of_log raw_log endpoint sampled_at)

-- What the monitor reads of it
unfoldable pub health_read : NvmeSmartHealth → Health
health_read health = record {
  sampled_ms = health.sampled_at;
  data_units_written = health.data_units_written;
}
