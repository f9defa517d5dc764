-- ===== src/Writer/Collector/Sound.antt =====
-- Every scan keeps the open bucket sound, so each batch that closes is one that the database accepts.
use nvme_disk_mon.Common.{
  ℕ, ◌≡◌, refl, false, List, [], ◌∷◌, Option, none, some, Bytes, ok, All, arith, Option-cases,
  Bool-cases, inl, inr, All-append_last, Distinct-insert, All-keys-insert, get, ltb, contains,
  ℕ_key, bytes_key,
}
use nvme_disk_mon.Common.Int.{ℤ, pos, eqb_ℤ, ltb_ℤ}
use nvme_disk_mon.Database.Batch.{WriterBucketBatch}
use nvme_disk_mon.Database.Validate.{is_unaligned, validate_writer_bucket}
use nvme_disk_mon.Database.Validate.Accepts.{validate_writer_bucket_iff}
use nvme_disk_mon.Writer.Types.{
  MonitoredDevice, Observation, ScanOutcome, CollectorState, ClosedBucket, amount_key,
  device_number_key,
}
use nvme_disk_mon.Writer.Marks.{
  WriteDelta, Reasons, bucket_start, mark_all, mark_resolved_incomplete,
}
use nvme_disk_mon.Writer.Deltas.{
  DeltaLoop, push_delta, observe_counter, observe_device, observe_devices, observe_all,
  calculate_deltas, store_amount, delta_start, accumulate_delta, accumulate,
}
use nvme_disk_mon.Writer.Close.{close_current_bucket}
use nvme_disk_mon.Writer.Close.Batch.{IsGoodName, IsSound, close_current_bucket-IsGoodBucket}
use nvme_disk_mon.Writer.Collector.Closes.{scanned, accumulated, closing, process_scan-closes}
use nvme_disk_mon.Writer.Collector.{mark_gap, open_bucket, close_and_open, process_scan}

abbrev GoodDeltas : List WriteDelta → Type 0
GoodDeltas = All (λ delta. IsGoodName delta.1)

abbrev pub GoodObservations : List Observation → Type 0
GoodObservations = All (λ observation. IsGoodName observation.workload_name)

push_delta-Good :
    (deltas : List WriteDelta) (h w : Bytes) (o : Option ℕ)
    → GoodDeltas deltas
    → IsGoodName w
    → GoodDeltas (push_delta deltas h w o)
unfolding push_delta
push_delta-Good deltas h w none g n = g
push_delta-Good deltas h w (some d) g n = elim (Bool-cases (ltb 0 d)) [
  | inl e ↦ rw e (All-append_last (λ delta. IsGoodName delta.1) deltas (h, w, d) g n)
  | inr e ↦ rw e g
]

observe_device-Good :
    (s : CollectorState) (o : Observation) (d : MonitoredDevice) (l : DeltaLoop)
    → IsGoodName o.workload_name
    → GoodDeltas l.deltas
    → GoodDeltas (observe_device s o d l).deltas
unfolding observe_device observe_counter
observe_device-Good s o d l n g = elim (Bool-cases (contains s.currently_mapped d.hash_id)) [
  | inr e ↦ rw e g
  | inl e ↦ rw e (elim (Option-cases (get o.counters d.number)) [
    | inl f ↦ rw f g
    | inr (c, f) ↦ rw f (push_delta-Good l.deltas d.hash_id o.workload_name _ g n)
  ])
]

observe_devices-Good :
    (s : CollectorState) (o : Observation) (devices : List MonitoredDevice) (l : DeltaLoop)
    → IsGoodName o.workload_name
    → GoodDeltas l.deltas
    → GoodDeltas (observe_devices s o devices l).deltas
unfolding observe_devices
observe_devices-Good s o [] l n g = g
observe_devices-Good s o (d ∷ devices) l n g =
    observe_devices-Good s o devices (observe_device s o d l) n (observe_device-Good s o d l n g)

observe_all-Good :
    (s : CollectorState) (observations : List Observation) (l : DeltaLoop)
    → GoodObservations observations
    → GoodDeltas l.deltas
    → GoodDeltas (observe_all s observations l).deltas
unfolding observe_all
observe_all-Good s [] l n g = g
observe_all-Good s (o ∷ rest) l n g =
    observe_all-Good s rest (observe_devices s o s.devices l) n.1
      (observe_devices-Good s o s.devices l n.0 g)

store_amount-IsSound :
    (tables : List Bytes) (s : CollectorState) (h w : Bytes) (o : Option ℕ)
    → IsGoodName w
    → IsSound tables s
    → IsSound tables (store_amount s h w o)
unfolding store_amount
store_amount-IsSound tables s h w none n v = record {
  known = v.known;
  distinct = v.distinct;
  aligned = v.aligned;
  keys_distinct = v.keys_distinct;
  names = v.names;
}
store_amount-IsSound tables s h w (some a) n v = record {
  known = v.known;
  distinct = v.distinct;
  aligned = v.aligned;
  keys_distinct = Distinct-insert s.amounts (h, w) a v.keys_distinct;
  names = All-keys-insert (λ key. IsGoodName key.1) s.amounts (h, w) a v.names n;
}

accumulate_delta-IsSound :
    (tables : List Bytes) (s : CollectorState) (delta : WriteDelta)
    → IsGoodName delta.1
    → IsSound tables s
    → IsSound tables (accumulate_delta s delta)
unfolding accumulate_delta
accumulate_delta-IsSound tables s (h, w, d) n v = store_amount-IsSound tables s h w _ n v

accumulate-IsSound :
    (tables : List Bytes) (s : CollectorState) (deltas : List WriteDelta)
    → GoodDeltas deltas
    → IsSound tables s
    → IsSound tables (accumulate s deltas)
unfolding accumulate
accumulate-IsSound tables s [] n v = v
accumulate-IsSound tables s (delta ∷ deltas) n v =
    accumulate-IsSound tables (accumulate_delta s delta) deltas n.1
      (accumulate_delta-IsSound tables s delta n.0 v)

bucket_start_aligned : (now : ℕ) → is_unaligned (bucket_start (pos now)) ≡ false
unfolding bucket_start is_unaligned
bucket_start_aligned now = ground arith

calculate_deltas-Good :
    (s : CollectorState) (observations : List Observation)
    → GoodObservations observations
    → GoodDeltas (calculate_deltas s observations).1
unfolding calculate_deltas
calculate_deltas-Good s observations n = observe_all-Good s observations (delta_start s) n tt

-- Soundness does not look at the reasons, the baselines or the flags.
transfer-IsSound :
    {tables : List Bytes} {s : CollectorState} (t : CollectorState)
    → t.devices ≡ s.devices
    → t.current_bucket ≡ s.current_bucket
    → t.amounts ≡ s.amounts
    → IsSound tables s
    → IsSound tables t
transfer-IsSound t d b a v = record {
  known = rw d v.known;
  distinct = rw d v.distinct;
  aligned = rw b v.aligned;
  keys_distinct = rw a v.keys_distinct;
  names = rw a v.names;
}

close_and_open-IsSound :
    (tables : List Bytes) (s : CollectorState) (next : ℤ) (reasons : Reasons)
    → is_unaligned next ≡ false
    → IsSound tables s
    → IsSound tables (close_and_open s next reasons).0
unfolding close_and_open open_bucket mark_gap close_current_bucket mark_resolved_incomplete
close_and_open-IsSound tables s next reasons a v = record {
  known = v.known;
  distinct = v.distinct;
  aligned = a;
  keys_distinct = tt;
  names = tt;
}

module _ (tables : List Bytes) (s : CollectorState) (outcome : ScanOutcome) where
  scanned-IsSound : IsSound tables s → IsSound tables (scanned s outcome).0
  unfolding calculate_deltas mark_resolved_incomplete
  scanned-IsSound v = transfer-IsSound _ refl refl refl v

  accumulated-IsSound :
      GoodObservations outcome.observations
      → IsSound tables s
      → IsSound tables (accumulated s outcome)
  accumulated-IsSound n v =
      accumulate-IsSound tables _ (scanned s outcome).1
        (calculate_deltas-Good _ outcome.observations n) (scanned-IsSound v)

  -- A scan at a time from 0 on, with observations under names that the database takes, keeps a
  -- sound state sound.
  pub process_scan-IsSound :
      (now : ℕ)
      → GoodObservations outcome.observations
      → IsSound tables s
      → IsSound tables (process_scan s (pos now) outcome).0
  unfolding process_scan
  process_scan-IsSound now n v =
      elim (Bool-cases (eqb_ℤ (bucket_start (pos now)) s.current_bucket)) [
        | inl e ↦ rw e (transfer-IsSound _ refl refl refl (accumulated-IsSound n v))
        | inr e ↦ rw e (elim (Bool-cases (ltb_ℤ (bucket_start (pos now)) s.current_bucket)) [
          | inl f ↦ rw f (unfold mark_all in transfer-IsSound _ refl refl refl (scanned-IsSound v))
          | inr f ↦ rw f (
              close_and_open-IsSound tables _ _ _ (bucket_start_aligned now)
                (accumulated-IsSound n v))
        ])
      ]

  -- For a sound state (its devices known to the database, safe and distinct, its bucket a full
  -- minute, its amounts under distinct valid names), a scan at a time from 0 on and observations
  -- under valid names: each batch of a bucket that the scan closes passes the checks of the
  -- database writer.
  pub process_scan-validate_writer_bucket :
      (now id : ℕ) (closed : ClosedBucket) (batch : WriterBucketBatch)
      → GoodObservations outcome.observations
      → IsSound tables s
      → (process_scan s (pos now) outcome).1 ≡ some closed
      → closed.batch ≡ some batch
      → validate_writer_bucket id batch tables ≡ ok tt
  process_scan-validate_writer_bucket now id closed batch n v e f =
      (validate_writer_bucket_iff id batch tables).1 (
        close_current_bucket-IsGoodBucket tables (closing s (pos now) outcome) batch
          (unfold mark_gap in transfer-IsSound _ refl refl refl (accumulated-IsSound n v))
          (rw (process_scan-closes s (pos now) outcome closed e) at f))
