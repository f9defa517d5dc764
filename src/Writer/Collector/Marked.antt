-- ===== src/Writer/Collector/Marked.antt =====
-- Once a device has a reason, it keeps that reason until the bucket closes, and is not complete then.
use nvme_disk_mon.Common.{
  ℕ, ◌≡◌, false, List, [], ◌∷◌, Option, none, some, Bytes, bytes_key, arith, Option-cases,
  Bool-cases, inl, inr, get, or_insert, get-or_insert, contains, is_some,
}
use nvme_disk_mon.Common.Int.{ℤ, pos, ltb_ℤ, ◌-ℤ◌}
use nvme_disk_mon.Writer.Types.{
  MonitoredDevice, BucketIncompleteReason, CounterKey, Observation, ScanOutcome, CollectorState,
  ClosedBucket, cgroup_identity_changed, device_number_key, counter_key,
}
use nvme_disk_mon.Writer.Marks.{
  WriteDelta, Baselines, Reasons, bucket_start, bucket_milliseconds, mark_all,
  mark_resolved_incomplete, or_insert_all, or_insert_reasons, find_hash_id,
}
use nvme_disk_mon.Writer.Deltas.{
  DeltaLoop, mark_reason, observe_counter, observe_device, observe_devices, observe_all,
  mark_missing, mark_all_missing, calculate_deltas, store_amount, accumulate_delta, accumulate,
}
use nvme_disk_mon.Writer.Close.Complete.{contains-complete_devices}
use nvme_disk_mon.Writer.Collector.Closes.{scanned, accumulated, closing, process_scan-closes}
use nvme_disk_mon.Writer.Collector.{mark_gap, gap_reasons, close_and_open, process_scan}

module _ (h : Bytes) (r : BucketIncompleteReason) where
  abbrev pub Has : Reasons → Type 0
  Has reasons = get reasons h ≡ some r

  or_insert-Has :
      (m : Reasons) (a : Bytes) (q : BucketIncompleteReason) → Has m → Has (or_insert m a q)
  or_insert-Has m a q e = ground (arith, get-or_insert m a h q)

  pub or_insert_all-Has :
      (devices : List MonitoredDevice) (q : BucketIncompleteReason) (m : Reasons)
      → Has m
      → Has (or_insert_all devices q m)
  unfolding or_insert_all
  or_insert_all-Has [] q m e = e
  or_insert_all-Has (d ∷ devices) q m e =
      or_insert_all-Has devices q _ (or_insert-Has m d.hash_id q e)

  or_insert_reasons-Has : (reasons m : Reasons) → Has m → Has (or_insert_reasons reasons m)
  unfolding or_insert_reasons
  or_insert_reasons-Has [] m e = e
  or_insert_reasons-Has ((a, q) ∷ rest) m e = or_insert_reasons-Has rest _ (or_insert-Has m a q e)

  mark_reason-Has :
      (m : Reasons) (a : Bytes) (o : Option BucketIncompleteReason)
      → Has m
      → Has (mark_reason m a o)
  unfolding mark_reason
  mark_reason-Has m a none e = e
  mark_reason-Has m a (some q) e = or_insert-Has m a q e

  observe_device-Has :
      (s : CollectorState) (o : Observation) (d : MonitoredDevice) (l : DeltaLoop)
      → Has l.incomplete
      → Has (observe_device s o d l).incomplete
  unfolding observe_device observe_counter
  observe_device-Has s o d l e = elim (Bool-cases (contains s.currently_mapped d.hash_id)) [
    | inr f ↦ rw f e
    | inl f ↦ rw f (elim (Option-cases (get o.counters d.number)) [
      | inl g ↦ rw g e
      | inr (c, g) ↦ rw g (mark_reason-Has l.incomplete d.hash_id _ e)
    ])
  ]

  observe_devices-Has :
      (s : CollectorState) (o : Observation) (devices : List MonitoredDevice) (l : DeltaLoop)
      → Has l.incomplete
      → Has (observe_devices s o devices l).incomplete
  unfolding observe_devices
  observe_devices-Has s o [] l e = e
  observe_devices-Has s o (d ∷ devices) l e =
      observe_devices-Has s o devices (observe_device s o d l) (observe_device-Has s o d l e)

  observe_all-Has :
      (s : CollectorState) (observations : List Observation) (l : DeltaLoop)
      → Has l.incomplete
      → Has (observe_all s observations l).incomplete
  unfolding observe_all
  observe_all-Has s [] l e = e
  observe_all-Has s (o ∷ rest) l e =
      observe_all-Has s rest (observe_devices s o s.devices l)
        (observe_devices-Has s o s.devices l e)

  pub mark_missing-Has :
      (devices : List MonitoredDevice) (key : CounterKey) (m : Reasons)
      → Has m
      → Has (mark_missing devices key m)
  unfolding mark_missing
  mark_missing-Has devices key m e = elim (Option-cases (find_hash_id devices key.device_hash_id)) [
    | inl f ↦ rw (f, mark_missing) (or_insert_all-Has devices _ m e)
    | inr (d, f) ↦ rw (f, mark_missing) (or_insert-Has m d.hash_id _ e)
  ]

  mark_all_missing-Has :
      (devices : List MonitoredDevice) (previous next : Baselines) (m : Reasons)
      → Has m
      → Has (mark_all_missing devices previous next m)
  unfolding mark_all_missing
  mark_all_missing-Has devices [] next m e = e
  mark_all_missing-Has devices ((key, v) ∷ previous) next m e =
      elim (Bool-cases (is_some (get next key))) [
        | inl f ↦ rw f (mark_all_missing-Has devices previous next m e)
        | inr f ↦
            rw f (mark_all_missing-Has devices previous next _ (mark_missing-Has devices key m e))
      ]

  calculate_deltas-Has :
      (s : CollectorState) (observations : List Observation)
      → Has s.incomplete
      → Has (calculate_deltas s observations).0.incomplete
  unfolding calculate_deltas
  calculate_deltas-Has s observations e =
      mark_all_missing-Has s.devices s.baselines _ _ (observe_all-Has s observations _ e)

  store_amount-Has :
      (s : CollectorState) (a w : Bytes) (o : Option ℕ)
      → Has s.incomplete
      → Has (store_amount s a w o).incomplete
  unfolding store_amount
  store_amount-Has s a w none e = or_insert-Has s.incomplete a _ e
  store_amount-Has s a w (some n) e = e

  pub accumulate-Has :
      (s : CollectorState) (deltas : List WriteDelta)
      → Has s.incomplete
      → Has (accumulate s deltas).incomplete
  unfolding accumulate accumulate_delta
  accumulate-Has s [] e = e
  accumulate-Has s ((a, w, n) ∷ deltas) e =
      accumulate-Has (accumulate_delta s (a, w, n)) deltas (store_amount-Has s a w _ e)

  gap_reasons-Has :
      (s : CollectorState) (earlier later : ℤ)
      → Has s.incomplete
      → Has (gap_reasons s earlier later)
  unfolding gap_reasons
  gap_reasons-Has s earlier later e =
      elim (Bool-cases (ltb_ℤ (pos bucket_milliseconds) (later -ℤ earlier))) [
        | inl f ↦ rw f (unfold mark_all in or_insert_all-Has s.devices _ s.incomplete e)
        | inr f ↦ rw f e
      ]

  scanned-Has :
      (s : CollectorState) (outcome : ScanOutcome)
      → Has s.incomplete
      → Has (scanned s outcome).0.incomplete
  unfolding mark_resolved_incomplete
  scanned-Has s outcome e =
      calculate_deltas-Has _ outcome.observations (or_insert_reasons-Has _ s.incomplete e)

  accumulated-Has :
      (s : CollectorState) (outcome : ScanOutcome)
      → Has s.incomplete
      → Has (accumulated s outcome).incomplete
  accumulated-Has s outcome e = accumulate-Has _ (scanned s outcome).1 (scanned-Has s outcome e)

  -- The reason that is noted for a device stands while the bucket is open: a scan that closes no
  -- bucket leaves it.
  pub get-process_scan :
      (s : CollectorState) (now_ms : ℤ) (outcome : ScanOutcome)
      → get s.incomplete h ≡ some r
      → (process_scan s now_ms outcome).1 ≡ none
      → get (process_scan s now_ms outcome).0.incomplete h ≡ some r
  unfolding process_scan mark_all close_and_open
  get-process_scan s now_ms outcome e n = ground (
    arith,
    accumulated-Has s outcome e,
    or_insert_all-Has (scanned s outcome).0.devices cgroup_identity_changed
        (scanned s outcome).0.incomplete (scanned-Has s outcome e),
  )

  -- A scan that closes the bucket does not report a device as complete for which a reason was
  -- noted before it.
  pub contains-process_scan :
      (s : CollectorState) (now_ms : ℤ) (outcome : ScanOutcome) (closed : ClosedBucket)
      → get s.incomplete h ≡ some r
      → (process_scan s now_ms outcome).1 ≡ some closed
      → contains closed.complete_devices h ≡ false
  unfolding mark_gap
  contains-process_scan s now_ms outcome closed e c = ground (
    arith,
    process_scan-closes s now_ms outcome closed c,
    contains-complete_devices (closing s now_ms outcome) h,
    gap_reasons-Has (accumulated s outcome) (accumulated s outcome).current_bucket
        (bucket_start now_ms) (accumulated-Has s outcome e),
  )
