-- ===== src/Monitor/Task/Safety.antt =====
-- What one device of a pass may do: the baseline moves only with the database.
use Prim.Native.String.{String}
use nvme_disk_mon.Common.{
  ℕ, ◌≡◌, ◌⊎◌, refl, ap, ◌∙◌, Bool, true, false, not, Option, none, some, Result, ok, err,
  Bool-cases, inl, inr, arith, ◌||◌, if◌then◌else◌,
}
use nvme_disk_mon.Common.Int.{ℤ, ltb_ℤ}
use nvme_disk_mon.Database.Batch.{SmartSampleBatch}
use nvme_disk_mon.Database.Errors.{DbWriteError}
use nvme_disk_mon.Monitor.Device.{
  SmartMonitorDevice, VerifiedNvmeDevice, identity_matches, prepare_current, pending_batch,
  acknowledge_pending, schedule_after_success, schedule_after_read_failure, set_due, schedule_retry,
}
use nvme_disk_mon.Monitor.Device.Commits.{committed, committed-baseline}
use nvme_disk_mon.Monitor.Task.{
  continue_loop, break_loop, fail, fail_database, Reading, Health, SmartReadError, Step, Flow, left,
  deactivate, read_failed, finish, acknowledge, after_answer, is_serial_mismatch, submit_pending,
  submit_batch, sample_device, read_health, read_device, step,
}

-- A device that is not active is left as it is.
pub step-inactive :
    (r : Reading) (d : SmartMonitorDevice) → d.active ≡ false → (step r d).device ≡ d
unfolding step left
step-inactive r d e = ground (arith, e)

stops : break_loop ≡ continue_loop → ⊥
stops e = ground arith

fails : (message : String) → fail message ≡ continue_loop → ⊥
fails message e = ground arith

fails_database : (error : DbWriteError) → fail_database error ≡ continue_loop → ⊥
fails_database error e = ground arith

-- Nothing is committed and nothing is reported, and no sample waits behind a step that goes on.
pub record IsQuiet (d : SmartMonitorDevice) (s : Step) : Type 0 where
  pub kept : s.device.baseline ≡ d.baseline
  pub silent : s.event ≡ none
  pub clean : s.flow ≡ continue_loop → s.device.pending ≡ none

-- The device that was read is the verified one, and the database took the sample.
pub record IsCommit (r : Reading) (d : SmartMonitorDevice) (s : Step) : Type 0 where
  pub timestamp : ℤ
  pub units : ℕ
  pub observed : VerifiedNvmeDevice
  pub batch : SmartSampleBatch
  pub read :
      r.smart ≡ ok (observed, record { sampled_ms = ok timestamp; data_units_written = some units })
  pub matched : identity_matches d observed ≡ true
  pub submitted : pending_batch (prepare_current d timestamp units).0 ≡ some batch
  pub accepted : r.answer batch ≡ ok true
  pub moved :
      s.device.baseline ≡ some (record { timestamp = timestamp; data_units_written = units })
  pub emptied : s.device.pending ≡ none
  pub reported : (s.event ≡ none) ⊎ (s.event ≡ (committed d timestamp units).1)

read_failed-IsQuiet :
    (now : ℤ) (d : SmartMonitorDevice) → d.pending ≡ none → IsQuiet d (read_failed now d)
unfolding read_failed left schedule_after_read_failure set_due schedule_retry
read_failed-IsQuiet now d fresh = record {
  kept = ground arith;
  silent = refl;
  clean = λ _. ground (arith, fresh);
}

module _ (d : SmartMonitorDevice) (timestamp : ℤ) where
  acknowledge-baseline :
      (acknowledge d timestamp).device.baseline ≡ (acknowledge_pending d).0.baseline
  unfolding acknowledge finish left schedule_after_success set_due
  acknowledge-baseline = ground arith

  acknowledge-pending : (acknowledge d timestamp).device.pending ≡ (acknowledge_pending d).0.pending
  unfolding acknowledge finish left schedule_after_success set_due
  acknowledge-pending = ground arith

  acknowledge-event :
      ((acknowledge d timestamp).event ≡ none)
      ⊎ ((acknowledge d timestamp).event ≡ (acknowledge_pending d).1)
  unfolding acknowledge finish left schedule_after_success set_due
  acknowledge-event = ground arith

either : {A : Type 0} (P : A → Type 0) (b : Bool) {x y : A} → P x → P y → P (if b then x else y)
either P true px py = px
either P false px py = py

prepare_current-baseline :
    (d : SmartMonitorDevice) (timestamp : ℤ) (units : ℕ)
    → (prepare_current d timestamp units).0.baseline ≡ d.baseline
unfolding prepare_current
prepare_current-baseline d timestamp units = ground arith

module _ (r : Reading) (d : SmartMonitorDevice) (fresh : d.pending ≡ none)
    (observed : VerifiedNvmeDevice) (matched : identity_matches d observed ≡ true) where
  Outcome : Step → Type 0
  Outcome s = IsQuiet d s ⊎ IsCommit r d s

  acknowledge-IsCommit :
      (timestamp : ℤ) (units : ℕ) (batch : SmartSampleBatch)
      → r.smart
        ≡ ok (observed, record { sampled_ms = ok timestamp; data_units_written = some units })
      → pending_batch (prepare_current d timestamp units).0 ≡ some batch
      → r.answer batch ≡ ok true
      → IsCommit r d (acknowledge (prepare_current d timestamp units).0 timestamp)
  unfolding committed
  acknowledge-IsCommit timestamp units batch read submitted accepted =
      let base = committed-baseline d timestamp units fresh in
      let prepared = (prepare_current d timestamp units).0 in
      record {
        timestamp = timestamp;
        units = units;
        observed = observed;
        batch = batch;
        read = read;
        matched = matched;
        submitted = submitted;
        accepted = accepted;
        moved = acknowledge-baseline prepared timestamp ∙ ap (λ d'. d'.baseline) base;
        emptied = acknowledge-pending prepared timestamp ∙ ap (λ d'. d'.pending) base;
        reported = acknowledge-event prepared timestamp;
      }

  sample_device-Outcome :
      (timestamp : ℤ) (units : Option ℕ)
      → r.smart ≡ ok (observed, record { sampled_ms = ok timestamp; data_units_written = units })
      → Outcome (sample_device r d timestamp units)
  unfolding Outcome sample_device submit_pending submit_batch after_answer left
  sample_device-Outcome timestamp none read = inl (read_failed-IsQuiet r.now_ms d fresh)
  sample_device-Outcome timestamp (some units) read =
      either Outcome r.stopped_after_read (inl (quiet break_loop stops))
        (with_batch (pending_batch prepared) refl)
    where
      prepared : SmartMonitorDevice
      prepared = (prepare_current d timestamp units).0

      quiet : (flow : Flow) → (flow ≡ continue_loop → ⊥) → IsQuiet d (left true prepared flow)
      quiet flow ends = record {
        kept = prepare_current-baseline d timestamp units;
        silent = refl;
        clean = λ e. absurd (ends e);
      }

      with_answer :
          (batch : SmartSampleBatch)
          → pending_batch prepared ≡ some batch
          → (answer : Result Bool DbWriteError) → r.answer batch ≡ answer
          → Outcome (after_answer prepared timestamp answer)
      with_answer batch submitted (err error) e =
          inl (quiet (fail_database error) (fails_database error))
      with_answer batch submitted (ok false) e = inl (quiet break_loop stops)
      with_answer batch submitted (ok true) e =
          inr (acknowledge-IsCommit timestamp units batch read submitted e)

      with_batch :
          (batch : Option SmartSampleBatch)
          → pending_batch prepared ≡ batch
          → Outcome (submit_batch r prepared timestamp batch)
      with_batch none e = inl (quiet (fail _) (fails _))
      with_batch (some batch) e = with_answer batch e (r.answer batch) refl

  read_health-Outcome :
      (sampled : Result ℤ String) (units : Option ℕ)
      → r.smart ≡ ok (observed, record { sampled_ms = sampled; data_units_written = units })
      → Outcome (read_health r d sampled units)
  unfolding Outcome read_health left
  read_health-Outcome (err message) units read =
      inl (record { kept = refl; silent = refl; clean = λ _. fresh })
  read_health-Outcome (ok timestamp) units read = sample_device-Outcome timestamp units read

-- For a device without a sample that waits: either the baseline stays, nothing is reported and, if
-- the loop goes on, again no sample waits; or the verified device was read and the database
-- accepted the batch of this sample, which is the baseline now, no sample waits, and the event, if
-- there is one, is that of the committed sample.
pub step-IsCommit :
    (r : Reading) (d : SmartMonitorDevice)
    → d.pending ≡ none
    → IsQuiet d (step r d) ⊎ IsCommit r d (step r d)
unfolding step left deactivate read_device Outcome
step-IsCommit r d fresh =
    either P r.stopped (inl quiet) (
      either P (not d.active || ltb_ℤ r.now_ms d.next_due_timestamp) (inl quiet)
        (read r.smart refl))
  where
    P : Step → Type 0
    P s = IsQuiet d s ⊎ IsCommit r d s

    quiet : {sampled : Bool} {flow : Flow} → IsQuiet d (left sampled d flow)
    quiet = record { kept = refl; silent = refl; clean = λ _. fresh }

    deactivated : IsQuiet d (deactivate d)
    deactivated = record { kept = refl; silent = refl; clean = λ _. fresh }

    read :
        (smart : Result (VerifiedNvmeDevice × Health) SmartReadError)
        → r.smart ≡ smart
        → P (read_device r d smart)
    read (ok (observed, health)) e = elim (Bool-cases (identity_matches d observed)) [
      | inl matched ↦ rw matched (
          read_health-Outcome r d fresh observed matched health.sampled_ms health.data_units_written
            e)
      | inr other ↦ rw other (inl deactivated)
    ]
    read (err e) h =
        either P (is_serial_mismatch e) (inl deactivated)
          (inl (read_failed-IsQuiet r.now_ms d fresh))
