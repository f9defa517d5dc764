-- ===== src/Writer/Task/Reports.antt =====
-- A bucket is reported only after the database has it.
use nvme_disk_mon.Common.{
  ◌≡◌, ◌⊎◌, refl, sym, ap, Bool, true, false, Option, none, some, Result, ok, err, Bool-cases, inl,
  inr, arith,
}
use nvme_disk_mon.Common.Int.{pos, ◌+ℤ◌}
use nvme_disk_mon.Database.Batch.{WriterBucketBatch}
use nvme_disk_mon.Database.Errors.{DbWriteError}
use nvme_disk_mon.Writer.Types.{ClosedBucket, CollectorState}
use nvme_disk_mon.Writer.Collector.{process_scan}
use nvme_disk_mon.Writer.Boundary.{WriterBoundaryReport}
use nvme_disk_mon.Writer.Marks.{bucket_milliseconds}
use nvme_disk_mon.Writer.Task.{
  Tick, unreported, scan_outcome, publish_closed, after_submit, submit_closed, handle_closed,
  prepared, tick,
}

-- The closed bucket of the scan stands behind the report, and the database has accepted its batch.
pub record IsStored (t : Tick) (s : CollectorState) (report : WriterBoundaryReport) : Type 0 where
  pub closed : ClosedBucket
  pub scanned : (process_scan (prepared t s) t.now_ms (scan_outcome t.scan)).1 ≡ some closed
  pub at_end : report.end_timestamp ≡ closed.timestamp +ℤ pos bucket_milliseconds
  pub same_devices : report.complete_devices ≡ closed.complete_devices
  pub stored :
      (closed.batch ≡ none)
      ⊎ ((batch : WriterBucketBatch) × (closed.batch ≡ some batch) × (t.answer batch ≡ ok true))

some-some : {A : Type 0} {a b : A} → some a ≡ some b → a ≡ b
some-some e = ground arith

none-some : {A : Type 0} {a : A} → none ≡ some a → ⊥
none-some e = ground arith

module _ (t : Tick) (s : CollectorState) (report : WriterBoundaryReport) where
  abbrev Stored : ClosedBucket → Type 0
  Stored closed =
      (report.end_timestamp ≡ closed.timestamp +ℤ pos bucket_milliseconds)
      × (report.complete_devices ≡ closed.complete_devices)
      × ((closed.batch ≡ none)
          ⊎ ((batch : WriterBucketBatch) × (closed.batch ≡ some batch)
              × (t.answer batch ≡ ok true)))

  submit_closed-Stored :
      (state : CollectorState) (closed : ClosedBucket)
      → (submit_closed t state closed closed.batch).report ≡ some report
      → Stored closed
  unfolding submit_closed after_submit publish_closed unreported
  submit_closed-Stored state closed e = go closed.batch refl e
    where
      publishes :
          ((closed.batch ≡ none)
            ⊎ ((batch : WriterBucketBatch) × (closed.batch ≡ some batch)
                × (t.answer batch ≡ ok true)))
          → (publish_closed t state closed).report ≡ some report
          → Stored closed
      publishes stored e =
          let same = some-some e in
          (sym (ap (λ r. r.end_timestamp) same), sym (ap (λ r. r.complete_devices) same), stored)

      submitted :
          (batch : WriterBucketBatch) (answer : Result Bool DbWriteError)
          → closed.batch ≡ some batch
          → t.answer batch ≡ answer
          → (after_submit t state closed answer).report ≡ some report
          → Stored closed
      submitted batch (err error) h a e = absurd (none-some e)
      submitted batch (ok false) h a e = absurd (none-some e)
      submitted batch (ok true) h a e = publishes (inr (batch, h, a)) e

      go :
          (batch : Option WriterBucketBatch)
          → closed.batch ≡ batch
          → (submit_closed t state closed batch).report ≡ some report
          → Stored closed
      go none h e = publishes (inl h) e
      go (some batch) h e = submitted batch (t.answer batch) h refl e

  handle_closed-Stored :
      (state : CollectorState) (o : Option ClosedBucket)
      → (handle_closed t state o).report ≡ some report
      → (closed : ClosedBucket) × (o ≡ some closed) × Stored closed
  unfolding handle_closed unreported
  handle_closed-Stored state none e = ground (arith, e)
  handle_closed-Stored state (some closed) e = elim (Bool-cases t.stopped) [
    | inl halted ↦ absurd (none-some (rw (handle_closed, halted) at e))
    | inr going ↦ (closed, refl, submit_closed-Stored _ closed (rw (handle_closed, going) at e))
  ]

-- A report is published only for the bucket that the scan has closed, with the complete devices of that
-- bucket, and only after the database has accepted its batch, if there is one.
pub tick-IsStored :
    (t : Tick) (s : CollectorState) (report : WriterBoundaryReport)
    → (tick t s).report ≡ some report
    → IsStored t s report
unfolding tick
tick-IsStored t s report e =
    let (closed, scanned, (at_end, same_devices, stored)) = handle_closed-Stored t s report _ _ e in
    record {
      closed = closed;
      scanned = scanned;
      at_end = at_end;
      same_devices = same_devices;
      stored = stored;
    }
