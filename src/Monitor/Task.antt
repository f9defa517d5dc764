-- ===== src/Monitor/Task.antt =====
-- `SmartMonitorTask::run` of src/monitor/mod.rs: one pass over the devices. What the loop reads from
-- outside (the flag to stop, the clock, the controller, the answer of the database) is a `Reading`
-- for each device, in the order of the devices.
pub mod Safety
use Prim.Native.String.{String}
use nvme_disk_mon.Common.{
  ℕ, Bool, true, false, not, ◌||◌, List, [], ◌∷◌, Option, none, some, Bytes, Result, ok, err,
  if◌then◌else◌,
}
use nvme_disk_mon.Common.Int.{ℤ, ltb_ℤ}
use nvme_disk_mon.Database.Batch.{SmartSampleBatch}
use nvme_disk_mon.Database.Errors.{DbWriteError}
use nvme_disk_mon.Monitor.Delta.{SmartDeltaState}
use nvme_disk_mon.Monitor.Device.{
  VerifiedNvmeDevice, SmartThresholdEvent, SmartMonitorDevice, identity_matches, prepare_current,
  pending_batch, acknowledge_pending, schedule_after_success, schedule_after_read_failure,
}

-- `SmartReadError` of src/monitor/smart.rs, with the paths and I/O errors that are only printed left out.
pub data SmartReadError : Type 0 where
  resolve_by_id not_block_device device_number_unavailable read_sysfs : SmartReadError
  topology_not_found not_nvme_namespace serial_read serial_mismatch : SmartReadError
  insufficient_privileges open_controller admin_command_io : SmartReadError
  admin_command_rejected : ℕ → SmartReadError
  invalid_smart_log required_counter_unavailable : String → SmartReadError

-- The pattern `SmartReadError::SerialMismatch { .. }`
unfoldable pub is_serial_mismatch : SmartReadError → Bool
is_serial_mismatch serial_mismatch = true
is_serial_mismatch _ = false

-- The part of `NvmeSmartHealth` that the task reads; `system_time_milliseconds(health.sampled_at)`.
pub record Health : Type 0 where
  pub sampled_ms : Result ℤ String
  pub data_units_written : Option ℕ

pub record Reading : Type 0 where
  pub stopped : Bool
  pub now_ms : ℤ
  pub smart : Result (VerifiedNvmeDevice × Health) SmartReadError
  pub stopped_after_read : Bool
  -- `submit_until_stopped`: `ok false` where the task was stopped before the database took the batch
  pub answer : SmartSampleBatch → Result Bool DbWriteError

-- How the loop goes on: with the next device, out of the pass, or out of the task.
pub data Flow : Type 0 where
  continue_loop break_loop : Flow
  fail : String → Flow
  fail_database : DbWriteError → Flow

pub record Step : Type 0 where
  pub device : SmartMonitorDevice
  pub flow : Flow
  pub sampled : Bool
  pub event : Option SmartThresholdEvent

unfoldable pub left : Bool → SmartMonitorDevice → Flow → Step
left sampled d flow = record { device = d; flow = flow; sampled = sampled; event = none }

unfoldable pub deactivate : SmartMonitorDevice → Step
unfolding left
deactivate d = left true (record d { active = false }) continue_loop

flow_of : Result (Unit {0}) String → Flow
flow_of (ok _) = continue_loop
flow_of (err message) = fail message

-- `device.schedule_after_read_failure(now_ms)?; continue`
unfoldable pub read_failed : ℤ → SmartMonitorDevice → Step
unfolding left flow_of
read_failed now_ms d =
    let (scheduled, result) = schedule_after_read_failure d now_ms in
    left true scheduled (flow_of result)

-- The rest of an iteration behind the acknowledgement; an error of the schedule loses the event.
unfoldable pub finish :
    SmartMonitorDevice → Result (Unit {0}) String → Option SmartThresholdEvent → Step
unfolding left
finish d (err message) event = left true d (fail message)
finish d (ok _) event = record { device = d; flow = continue_loop; sampled = true; event = event }

unfoldable pub acknowledge : SmartMonitorDevice → ℤ → Step
unfolding finish
acknowledge d sampled_timestamp =
    let (committed, event) = acknowledge_pending d in
    let (scheduled, result) = schedule_after_success committed sampled_timestamp in
    finish scheduled result event

-- What follows from the answer of the database.
unfoldable pub after_answer : SmartMonitorDevice → ℤ → Result Bool DbWriteError → Step
unfolding left acknowledge
after_answer d sampled_timestamp (err error) = left true d (fail_database error)
after_answer d sampled_timestamp (ok false) = left true d break_loop
after_answer d sampled_timestamp (ok true) = acknowledge d sampled_timestamp

unfoldable pub submit_batch : Reading → SmartMonitorDevice → ℤ → Option SmartSampleBatch → Step
unfolding left after_answer
submit_batch r d sampled_timestamp none =
    left true d (fail "SMART database submission has no pending sample")
submit_batch r d sampled_timestamp (some batch) = after_answer d sampled_timestamp (r.answer batch)

-- `submit_pending` and what follows from its answer
unfoldable pub submit_pending : Reading → SmartMonitorDevice → ℤ → Step
unfolding submit_batch
submit_pending r d sampled_timestamp = submit_batch r d sampled_timestamp (pending_batch d)

-- `prepare_health_sample`, with the failure of a log without the counter
unfoldable pub sample_device : Reading → SmartMonitorDevice → ℤ → Option ℕ → Step
unfolding left submit_pending read_failed
sample_device r d sampled_timestamp none = read_failed r.now_ms d
sample_device r d sampled_timestamp (some data_units_written) =
    let (prepared, _) = prepare_current d sampled_timestamp data_units_written in
    if r.stopped_after_read
    then left true prepared break_loop
    else submit_pending r prepared sampled_timestamp

unfoldable pub read_health : Reading → SmartMonitorDevice → Result ℤ String → Option ℕ → Step
unfolding left sample_device
read_health r d (err message) data_units_written = left true d (fail message)
read_health r d (ok sampled_timestamp) data_units_written =
    sample_device r d sampled_timestamp data_units_written

unfoldable pub read_device :
    Reading → SmartMonitorDevice → Result (VerifiedNvmeDevice × Health) SmartReadError → Step
unfolding deactivate read_failed read_health
read_device r d (ok (observed, health)) =
    if identity_matches d observed
    then read_health r d health.sampled_ms health.data_units_written
    else deactivate d
read_device r d (err error) =
    if is_serial_mismatch error then deactivate d else read_failed r.now_ms d

-- The body of `for device in &mut self.devices`.
unfoldable pub step : Reading → SmartMonitorDevice → Step
unfolding left read_device
step r d =
    if r.stopped
    then left false d break_loop
    else if not d.active || ltb_ℤ r.now_ms d.next_due_timestamp
    then left false d continue_loop
    else read_device r d r.smart
