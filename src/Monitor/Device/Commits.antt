-- ===== src/Monitor/Device/Commits.antt =====
-- What `acknowledge_pending` of src/monitor/mod.rs makes of a sample that the database has committed.
use nvme_disk_mon.Common.{
  ℕ, ◌*◌, ◌≡◌, ◌↔◌, refl, sym, ap, subst, ◌∙◌, ◌-◌, true, false, Option, none, some, Bytes, ok,
  arith, Bool-cases, Option-cases, inl, inr, contains, bytes_key, List,
}
use nvme_disk_mon.Common.Int.{ℤ, pos}
use nvme_disk_mon.Database.Batch.{SmartSampleBatch}
use nvme_disk_mon.Database.Validate.{validate_smart_sample, is_valid_hash_id, is_below_zero}
use nvme_disk_mon.Monitor.Delta.{
  SmartBaseline, SmartDeltaState, valid_window, outside_detection_window, first_baseline,
  counter_regressed, continuity_uncertain, amount_out_of_sqlite_range, persisted_amount,
  classify_smart_delta,
}
use nvme_disk_mon.Monitor.Delta.Window.{
  IsWindow, persisted_amount-classify_smart_delta, classify_smart_delta-valid_window,
}
use nvme_disk_mon.Monitor.Threshold.{bytes_strictly_exceed_gib}
use nvme_disk_mon.Monitor.Device.{
  SmartMonitorDevice, PendingSmartSample, baseline_timestamp, threshold_event, SmartThresholdEvent,
  prepare_current, acknowledge_pending, event_of, pending_batch, to_batch,
}

-- A sample that is read, prepared and acknowledged.
unfoldable pub committed :
    SmartMonitorDevice → ℤ → ℕ → SmartMonitorDevice × Option SmartThresholdEvent
committed d timestamp units =
    let (prepared, _) = prepare_current d timestamp units in acknowledge_pending prepared

-- Without a sample that waits, a committed one becomes the baseline and nothing waits behind it.
pub committed-baseline :
    (d : SmartMonitorDevice) (timestamp : ℤ) (units : ℕ)
    → d.pending ≡ none
    → (committed d timestamp units).0 ≡ record d {
      pending = none;
      baseline = some (record { timestamp = timestamp; data_units_written = units });
    }
unfolding committed prepare_current acknowledge_pending
committed-baseline d timestamp units e = rw e refl

-- A window over which more was written than the threshold of the device.
pub record IsExcess (d : SmartMonitorDevice) (timestamp : ℤ) (units : ℕ)
    (event : SmartThresholdEvent) : Type 0 where
  pub previous : SmartBaseline
  pub amount : ℕ
  pub recovered : d.baseline ≡ some previous
  pub window : IsWindow previous timestamp units d.expected_span_ms amount
  pub exceeds : bytes_strictly_exceed_gib (pos (amount * 512_000)) d.threshold_gib ≡ true
  pub reported : event ≡ record {
    device_hash_id = d.verified.hash_id;
    label = d.label;
    configured_path = d.verified.configured_path;
    previous_timestamp = previous.timestamp;
    current_timestamp = timestamp;
    write_amount_bytes = pos (amount * 512_000);
    threshold_gib = d.threshold_gib;
    lookback_minutes = d.lookback_minutes;
  }

some-none : {e : SmartThresholdEvent} → none ≡ some e → ⊥
some-none e = ground arith

some-some : {A : Type 0} {a b : A} → some a ≡ some b → a ≡ b
some-some e = ground arith

valid-first :
    (timestamp span : ℤ) (units : ℕ) {amount : ℤ}
    → classify_smart_delta none timestamp units span ≡ valid_window amount
    → ⊥
unfolding classify_smart_delta
valid-first timestamp span units e = ground arith

event_of-valid_window :
    (d : SmartMonitorDevice) (pending : PendingSmartSample) (amount : ℤ)
    (event : SmartThresholdEvent)
    → event_of d pending (valid_window amount) ≡ some event
    → (bytes_strictly_exceed_gib amount d.threshold_gib ≡ true)
      × (previous : ℤ) × (pending.previous_timestamp ≡ some previous)
      × (event ≡ threshold_event d pending amount previous)
unfolding event_of
event_of-valid_window d pending amount event e =
    elim (Bool-cases (bytes_strictly_exceed_gib amount d.threshold_gib)) [
      | inl exceeds ↦ elim (Option-cases pending.previous_timestamp) [
        | inl missing ↦ absurd (some-none (rw (exceeds, missing) at e))
        | inr (previous, found) ↦
            (exceeds, previous, found, sym (some-some (rw (exceeds, found) at e)))
      ]
      | inr below ↦ absurd (some-none (rw below at e))
    ]

event_of-persisted :
    (d : SmartMonitorDevice) (pending : PendingSmartSample) (state : SmartDeltaState)
    (event : SmartThresholdEvent)
    → event_of d pending state ≡ some event
    → (amount : ℤ) × (state ≡ valid_window amount)
unfolding event_of
event_of-persisted d pending (valid_window amount) event e = (amount, refl)
event_of-persisted d pending (outside_detection_window amount expected actual) event e =
    absurd (some-none e)
event_of-persisted d pending first_baseline event e = absurd (some-none e)
event_of-persisted d pending counter_regressed event e = absurd (some-none e)
event_of-persisted d pending continuity_uncertain event e = absurd (some-none e)
event_of-persisted d pending amount_out_of_sqlite_range event e = absurd (some-none e)

-- The sample that `prepare_current` leaves behind, and its device.
abbrev sample_of : SmartMonitorDevice → ℤ → ℕ → PendingSmartSample
sample_of d timestamp units = record {
  timestamp = timestamp;
  data_units_written = units;
  previous_timestamp = baseline_timestamp d.baseline;
  delta_state = classify_smart_delta d.baseline timestamp units d.expected_span_ms;
}

abbrev prepared_of : SmartMonitorDevice → ℤ → ℕ → SmartMonitorDevice
prepared_of d timestamp units = record d { pending = some (sample_of d timestamp units) }

module _ (d : SmartMonitorDevice) (timestamp : ℤ) (units : ℕ) (event : SmartThresholdEvent)
    (fresh : d.pending ≡ none) where
  reported_of_excess :
      IsExcess d timestamp units event → (committed d timestamp units).1 ≡ some event
  unfolding committed prepare_current acknowledge_pending event_of baseline_timestamp
      threshold_event
  reported_of_excess x =
      let valid =
        (classify_smart_delta-valid_window x.previous timestamp units d.expected_span_ms x.amount).1
          x.window in
      rw (fresh, x.recovered, valid, x.exceeds, x.reported) refl

  event_of_reported :
      (committed d timestamp units).1 ≡ some event
      → event_of
          (prepared_of d timestamp units)
          (sample_of d timestamp units)
          (classify_smart_delta d.baseline timestamp units d.expected_span_ms)
        ≡ some event
  unfolding committed prepare_current acknowledge_pending
  event_of_reported e = rw fresh at e

  IsExcess-of_reported :
      (committed d timestamp units).1 ≡ some event → IsExcess d timestamp units event
  unfolding baseline_timestamp threshold_event persisted_amount
  IsExcess-of_reported e =
      let e' = event_of_reported e in
      let prepared = prepared_of d timestamp units in
      let sample = sample_of d timestamp units in
      elim (Option-cases d.baseline) [
        | inl missing ↦
            let (_, valid) = event_of-persisted prepared sample _ event e' in
            absurd (valid-first timestamp d.expected_span_ms units (rw missing at valid))
        | inr (previous, found) ↦
            let (amount, valid) = event_of-persisted prepared sample _ event e' in
            let known : classify_smart_delta (some previous) timestamp units d.expected_span_ms
                ≡ valid_window amount =
              rw found at valid in
            let (exact, _, _) =
              persisted_amount-classify_smart_delta previous timestamp units d.expected_span_ms
                amount (rw known refl) in
            let (exceeds, earlier, same, reported) = event_of-valid_window prepared sample _ event (
              subst (λ state. event_of prepared sample state ≡ some event)
                (valid ∙ ap valid_window exact) e') in
            record {
              previous = previous;
              amount = units - previous.data_units_written;
              recovered = found;
              window =
                  (classify_smart_delta-valid_window previous timestamp units d.expected_span_ms
                      _).0
                    (known ∙ ap valid_window exact);
              exceeds = exceeds;
              reported =
                  reported
                  ∙ ap (threshold_event prepared sample _)
                      (some-some (sym same ∙ ap baseline_timestamp found));
            }
      ]

-- Without a sample that waits, a committed one gives an event exactly when its window is one over which
-- more was written than the threshold, and the event reports that window.
pub committed-event :
    (d : SmartMonitorDevice) (timestamp : ℤ) (units : ℕ) (event : SmartThresholdEvent)
    → d.pending ≡ none
    → ((committed d timestamp units).1 ≡ some event) ↔ IsExcess d timestamp units event
committed-event d timestamp units event fresh = (
  IsExcess-of_reported d timestamp units event fresh,
  reported_of_excess d timestamp units event fresh,
)

persisted_amount-positive :
    (baseline : Option SmartBaseline) (timestamp : ℤ) (units : ℕ) (expected : ℤ)
    → is_below_zero (persisted_amount (classify_smart_delta baseline timestamp units expected))
      ≡ false
unfolding classify_smart_delta persisted_amount is_below_zero
persisted_amount-positive baseline timestamp units expected = ground arith

-- The batch of a new sample, at a time from 0 on and of a device whose hash is valid and known to the
-- database, is one that the database accepts.
pub pending_batch-validate_smart_sample :
    (request_id : ℕ) (d : SmartMonitorDevice) (timestamp units : ℕ) (batch : SmartSampleBatch)
    (tables : List Bytes)
    → d.pending ≡ none
    → is_valid_hash_id d.verified.hash_id ≡ true
    → contains tables d.verified.hash_id ≡ true
    → pending_batch (prepare_current d (pos timestamp) units).0 ≡ some batch
    → validate_smart_sample request_id batch tables ≡ ok tt
unfolding pending_batch prepare_current validate_smart_sample to_batch
pending_batch-validate_smart_sample request_id d timestamp units batch tables fresh valid known e =
    let same = some-some (rw fresh at e) in
    rw
      (
        ← same,
        valid,
        known,
        persisted_amount-positive d.baseline (pos timestamp) units d.expected_span_ms,
      )
      refl
