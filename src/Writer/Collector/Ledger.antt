-- ===== src/Writer/Collector/Ledger.antt =====
-- The ledger of the open bucket: its amounts and the counters move together, and the batch of a
-- device says what was accumulated.
use nvme_disk_mon.Common.{
  ℕ, ◌+◌, ◌≡◌, refl, ap, ◌∙◌, Bool-cases, true, false, List, [], ◌∷◌, Option, none, some, Bytes,
  bytes_key, arith, get, insert, or_insert, eqb, if◌then◌else◌, keys, Distinct, any, get-or_insert,
  Option-cases, inl, inr,
}
use nvme_disk_mon.Common.Int.{ℤ, pos_part}
use nvme_disk_mon.Database.Batch.{WriterAmount}
use nvme_disk_mon.Writer.Types.{
  CollectorState, MonitoredDevice, ScanOutcome, BucketIncompleteReason, counter_key, amount_key,
  accumulator_overflow, cgroup_identity_changed,
}
use nvme_disk_mon.Writer.Marks.{
  Reasons, WriteDelta, is_unmarked, mark_all, or_insert_all, mark_resolved_incomplete,
}
use nvme_disk_mon.Writer.Deltas.{
  Amounts, get_or_zero, store_amount, accumulate_delta, accumulate, calculate_deltas,
}
use nvme_disk_mon.Writer.Deltas.Balance.{total, sum_deltas}
use nvme_disk_mon.Writer.Deltas.Conserved.{observed_keys, calculate_deltas-conserves}
use nvme_disk_mon.Writer.Close.{device_amounts, insert_sorted, sort_by_workload}
use nvme_disk_mon.Writer.Close.Complete.{has_hash_id}
use nvme_disk_mon.Writer.Collector.Marked.{accumulate-Has, or_insert_all-Has}
use nvme_disk_mon.Writer.Collector.Closes.{scanned, accumulated, process_scan-stays}
use nvme_disk_mon.Writer.Collector.{process_scan}

-- What is accumulated for one device.
abbrev pub amount_total : Bytes → Amounts → ℕ
amount_total h [] = 0
amount_total h (((a, _), n) ∷ m) = (if eqb a h then n else 0) + amount_total h m

amount_total-insert :
    (h a w : Bytes) (n : ℕ) (m : Amounts)
    → amount_total h (insert m (a, w) (get_or_zero (get m (a, w)) + n))
      ≡ amount_total h m + (if eqb a h then n else 0)
unfolding insert get
amount_total-insert h a w n [] = ground arith
amount_total-insert h a w n (((b, v), i) ∷ m) = ground (arith, amount_total-insert h a w n m)

accumulate_delta-adds :
    (h a w : Bytes) (n : ℕ) (s : CollectorState)
    → is_unmarked (accumulate_delta s (a, w, n)).incomplete h ≡ true
    → amount_total h (accumulate_delta s (a, w, n)).amounts
      ≡ amount_total h s.amounts + (if eqb a h then n else 0)
unfolding accumulate_delta
accumulate_delta-adds h a w n s u = ground (
  arith,
  amount_total-insert h a w n s.amounts,
  get-or_insert s.incomplete a h accumulator_overflow,
)

accumulate-unmarked :
    (h : Bytes) (s : CollectorState) (deltas : List WriteDelta)
    → is_unmarked (accumulate s deltas).incomplete h ≡ true
    → is_unmarked s.incomplete h ≡ true
accumulate-unmarked h s deltas u = elim (Option-cases (get s.incomplete h)) [
  | inl e ↦ rw (e, is_unmarked)
  | inr (r, e) ↦ absurd (ground (arith, accumulate-Has h r s deltas e))
]

-- Without an overflow, a device gains the sum of its deltas.
pub accumulate-adds :
    (h : Bytes) (s : CollectorState) (deltas : List WriteDelta)
    → is_unmarked (accumulate s deltas).incomplete h ≡ true
    → amount_total h (accumulate s deltas).amounts ≡ amount_total h s.amounts + sum_deltas h deltas
unfolding accumulate
accumulate-adds h s [] u = omega arith
accumulate-adds h s ((a, w, n) ∷ deltas) u = omega (
  arith,
  accumulate-adds h (accumulate_delta s (a, w, n)) deltas u,
  accumulate_delta-adds h a w n s (accumulate-unmarked h (accumulate_delta s (a, w, n)) deltas u),
)

store_amount-baselines :
    (s : CollectorState) (a w : Bytes) (o : Option ℕ)
    → (store_amount s a w o).baselines ≡ s.baselines
unfolding store_amount
store_amount-baselines s a w none = refl
store_amount-baselines s a w (some n) = refl

accumulate-baselines :
    (s : CollectorState) (deltas : List WriteDelta) → (accumulate s deltas).baselines ≡ s.baselines
unfolding accumulate accumulate_delta
accumulate-baselines s [] = refl
accumulate-baselines s ((a, w, n) ∷ deltas) =
    accumulate-baselines (accumulate_delta s (a, w, n)) deltas ∙ store_amount-baselines s a w _

is_marked :
    (m : Reasons) (h : Bytes)
    → is_unmarked m h ≡ false
    → (r : BucketIncompleteReason) × (get m h ≡ some r)
is_marked m h u = elim (Option-cases (get m h)) [
  | inl e ↦ absurd (ground arith)
  | inr (r, e) ↦ (r, e)
]

or_insert_all-marks :
    (h : Bytes) (q : BucketIncompleteReason) (devices : List MonitoredDevice) (m : Reasons)
    → any (has_hash_id h) devices ≡ true
    → is_unmarked (or_insert_all devices q m) h ≡ false
unfolding or_insert_all
or_insert_all-marks h q [] m k = cc
or_insert_all-marks h q (d ∷ devices) m k = elim (Bool-cases (eqb d.hash_id h)) [
  | inr f ↦ or_insert_all-marks h q devices (or_insert m d.hash_id q) (ground arith)
  | inl f ↦
      let (r, e) =
        is_marked (or_insert m d.hash_id q) h (ground (arith, get-or_insert m d.hash_id h q)) in
      rw (or_insert_all-Has h r devices q (or_insert m d.hash_id q) e, is_unmarked)
]

mark_all-marks :
    (h : Bytes) (q : BucketIncompleteReason) (t : CollectorState)
    → any (has_hash_id h) t.devices ≡ true
    → is_unmarked (mark_all t q).incomplete h ≡ false
unfolding mark_all
mark_all-marks h q t known = or_insert_all-marks h q t.devices t.incomplete known

module _ (s : CollectorState) (outcome : ScanOutcome) (h : Bytes) where
  -- The amounts and the counters before and behind a scan.
  abbrev pub Balances : CollectorState → Type 0
  Balances t =
      amount_total h t.amounts + total h s.baselines
      ≡ amount_total h s.amounts + total h t.baselines

  scanned-amounts : (scanned s outcome).0.amounts ≡ s.amounts
  unfolding calculate_deltas mark_resolved_incomplete
  scanned-amounts = refl

  pub accumulated-Balances :
      s.initialized ≡ true
      → any (has_hash_id h) s.devices ≡ true
      → Distinct (keys s.baselines)
      → Distinct (observed_keys s.devices outcome.observations)
      → is_unmarked (accumulated s outcome).incomplete h ≡ true
      → Balances (accumulated s outcome)
  unfolding mark_resolved_incomplete
  accumulated-Balances ready known d o u =
      let (t, deltas) = scanned s outcome in
      rw (accumulate-baselines t deltas) (
        omega (
          arith,
          accumulate-adds h t deltas u,
          calculate_deltas-conserves _ outcome.observations h ready known d o
              (accumulate-unmarked h t deltas u),
          ap (amount_total h) scanned-amounts,
        ))

  -- For a collector that has scanned before, a configured device, and baselines and readings that
  -- name no counter twice: a scan that leaves the bucket open and the device without a reason adds
  -- to the amounts of the device what its counters gained.
  pub process_scan-Balances :
      (now_ms : ℤ)
      → s.initialized ≡ true
      → any (has_hash_id h) s.devices ≡ true
      → Distinct (keys s.baselines)
      → Distinct (observed_keys s.devices outcome.observations)
      → (process_scan s now_ms outcome).1 ≡ none
      → is_unmarked (process_scan s now_ms outcome).0.incomplete h ≡ true
      → Balances (process_scan s now_ms outcome).0
  unfolding calculate_deltas mark_resolved_incomplete
  process_scan-Balances now_ms ready known d o open_still u =
      elim (process_scan-stays s now_ms outcome open_still) [
        | inl e ↦ rw e (accumulated-Balances ready known d o (rw e at u))
        | inr e ↦ absurd (
            ground (
              arith,
              (let v : is_unmarked
                        (mark_all (scanned s outcome).0 cgroup_identity_changed).incomplete h
                      ≡ true =
                    rw e at u in
                  v),
              mark_all-marks h cgroup_identity_changed (scanned s outcome).0 known,
            ))
      ]

unfoldable pub sum_amounts : List WriterAmount → ℕ
sum_amounts [] = 0
sum_amounts (a ∷ amounts) = pos_part a.write_amount_bytes + sum_amounts amounts

abbrev pub SumsTo : ℕ → Option (List WriterAmount) → Type 0
SumsTo n none = Unit
SumsTo n (some amounts) = sum_amounts amounts ≡ n

-- The amounts of a device in a batch add up to what was accumulated for it.
pub sum_amounts-device_amounts :
    (h : Bytes) (m : Amounts) → SumsTo (amount_total h m) (device_amounts h m)
unfolding sum_amounts device_amounts
sum_amounts-device_amounts h [] = refl
sum_amounts-device_amounts h (((a, w), n) ∷ m) = ground (arith, sum_amounts-device_amounts h m)

sum_amounts-insert_sorted :
    (a : WriterAmount) (amounts : List WriterAmount)
    → sum_amounts (insert_sorted a amounts) ≡ pos_part a.write_amount_bytes + sum_amounts amounts
unfolding sum_amounts insert_sorted
sum_amounts-insert_sorted a [] = refl
sum_amounts-insert_sorted a (b ∷ amounts) = ground (arith, sum_amounts-insert_sorted a amounts)

pub sum_amounts-sort_by_workload :
    (amounts : List WriterAmount) → sum_amounts (sort_by_workload amounts) ≡ sum_amounts amounts
unfolding sum_amounts sort_by_workload
sum_amounts-sort_by_workload [] = refl
sum_amounts-sort_by_workload (a ∷ amounts) = omega (
  arith,
  sum_amounts-sort_by_workload amounts,
  sum_amounts-insert_sorted a (sort_by_workload amounts),
)
