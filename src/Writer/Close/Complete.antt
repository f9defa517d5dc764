-- ===== src/Writer/Close/Complete.antt =====
-- Which devices `close_current_bucket` reports as complete.
use nvme_disk_mon.Common.{
  ℕ, ◌≡◌, refl, ◌^◌, Bool, not, ◌&&◌, ◌||◌, all, ltb, List, [], ◌∷◌, Bytes, bytes_key, contains,
  eqb, any, is_some, arith, get-insert, contains-insert_set,
}
use nvme_disk_mon.Writer.Types.{MonitoredDevice, CollectorState, accumulator_overflow}
use nvme_disk_mon.Writer.Marks.{Reasons, is_unmarked}
use nvme_disk_mon.Writer.Deltas.{Amounts}
use nvme_disk_mon.Writer.Close.{
  CloseLoop, close_amounts, close_device, close_devices, device_amounts, close_current_bucket,
  close_start,
}

abbrev pub has_hash_id : Bytes → MonitoredDevice → Bool
has_hash_id hash_id device = eqb device.hash_id hash_id

-- An amount of this device fits an i64.
abbrev pub fits_i64 : Bytes → (Bytes × Bytes) × ℕ → Bool
fits_i64 hash_id ((amount_hash_id, workload_name), amount) =
    not (eqb amount_hash_id hash_id) || ltb amount (2 ^ 63)

abbrev pub is_complete : CollectorState → Bytes → Bool
is_complete s hash_id =
    any (has_hash_id hash_id) s.devices
    && (is_unmarked s.incomplete hash_id && all (fits_i64 hash_id) s.amounts)

abbrev is_fit : Amounts → Reasons → Bytes → Bool
is_fit amounts reasons hash_id =
    is_unmarked reasons hash_id && is_some (device_amounts hash_id amounts)

module _ (amounts : Amounts) (hash_id : Bytes) where
  -- A device whose amounts are out of range is not fit, whether or not it has its mark yet.
  is_fit-close_device :
      (device : MonitoredDevice) (l : CloseLoop)
      → is_fit amounts (close_device amounts device l).incomplete hash_id
        ≡ is_fit amounts l.incomplete hash_id
  unfolding close_device close_amounts
  is_fit-close_device device l =
      ground (arith, get-insert l.incomplete device.hash_id hash_id accumulator_overflow)

  contains-close_device :
      (device : MonitoredDevice) (l : CloseLoop)
      → contains (close_device amounts device l).complete_devices hash_id ≡ (
          contains l.complete_devices hash_id
          || (has_hash_id hash_id device && is_fit amounts l.incomplete hash_id))
  unfolding close_device close_amounts
  contains-close_device device l =
      ground (arith, contains-insert_set l.complete_devices device.hash_id hash_id)

  contains-close_devices :
      (devices : List MonitoredDevice) (l : CloseLoop)
      → contains (close_devices amounts devices l).complete_devices hash_id ≡ (
          contains l.complete_devices hash_id
          || (any (has_hash_id hash_id) devices && is_fit amounts l.incomplete hash_id))
  unfolding close_devices
  contains-close_devices [] l = ground arith
  contains-close_devices (device ∷ devices) l = ground (
    arith,
    contains-close_devices devices (close_device amounts device l),
    contains-close_device device l,
    is_fit-close_device device l,
  )

device_amounts-fits_i64 :
    (hash_id : Bytes) (amounts : Amounts)
    → is_some (device_amounts hash_id amounts) ≡ all (fits_i64 hash_id) amounts
unfolding device_amounts
device_amounts-fits_i64 hash_id [] = refl
device_amounts-fits_i64 hash_id (((amount_hash_id, workload_name), amount) ∷ amounts) =
    ground (arith, device_amounts-fits_i64 hash_id amounts)

-- A bucket that closes reports a device as complete exactly when the device is configured, no
-- reason is noted for it, and each of its amounts is below 2 ^ 63.
pub contains-complete_devices :
    (s : CollectorState) (hash_id : Bytes)
    → contains (close_current_bucket s).1.complete_devices hash_id ≡ is_complete s hash_id
unfolding close_current_bucket contains
contains-complete_devices s hash_id =
    rw (← device_amounts-fits_i64 hash_id s.amounts)
      (contains-close_devices s.amounts hash_id s.devices (close_start s))
