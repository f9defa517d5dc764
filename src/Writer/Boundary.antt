-- ===== src/Writer/Boundary.antt =====
-- `WriterBoundaryReport` and `WriterBoundaryTracker` of src/writer/collector.rs. The cell behind the
-- mutex is a value; a wait is the sequence of values that it finds each time it wakes up. A mutex whose
-- holder has panicked is left out.
use Prim.Native.String.{String}
use nvme_disk_mon.Common.{
  ◌≡◌, ◌⊎◌, refl, Bool, true, List, Option, none, some, Bytes, bytes_key, Result, ok, err, contains,
  if◌then◌else◌, Bool-cases, inl, inr, arith,
}
use nvme_disk_mon.Common.Int.{ℤ, ltb_ℤ, eqb_ℤ}

pub record WriterBoundaryReport : Type 0 where
  pub end_timestamp : ℤ
  pub complete_devices : List Bytes

unfoldable pub is_complete_in : WriterBoundaryReport → Bytes → Bool
is_complete_in report hash_id = contains report.complete_devices hash_id

-- `publish`: the new report takes the place of the last one.
unfoldable pub publish :
    Option WriterBoundaryReport → WriterBoundaryReport → Option WriterBoundaryReport
publish state report = some report

-- The wait ends by the flag to stop, or goes on with what the cell holds next.
pub data Wakes : Type 0 where
  stopped : Wakes
  woken : Option WriterBoundaryReport → Wakes → Wakes

-- `state.is_none_or(|report| report.end_timestamp < end_timestamp)`
unfoldable pub is_before : Option WriterBoundaryReport → ℤ → Bool
is_before none end_timestamp = true
is_before (some report) end_timestamp = ltb_ℤ report.end_timestamp end_timestamp

unfoldable pub found : Option WriterBoundaryReport → ℤ → Bytes → Option Bool
unfolding is_complete_in
found none end_timestamp hash_id = none
found (some report) end_timestamp hash_id =
    if eqb_ℤ report.end_timestamp end_timestamp then some (is_complete_in report hash_id) else none

unfoldable pub wait_until_processed :
    ℤ → Bytes → Option WriterBoundaryReport → Wakes → Result (Option Bool) String
unfolding is_before found
wait_until_processed end_timestamp hash_id state stopped =
    if is_before state end_timestamp
    then err "daemon stopped while waiting for writer boundary"
    else ok (found state end_timestamp hash_id)
wait_until_processed end_timestamp hash_id state (woken next wakes) =
    let later = wait_until_processed end_timestamp hash_id next wakes in
    if is_before state end_timestamp then later else ok (found state end_timestamp hash_id)

-- The cell holds the report when the wait begins, or at one of the times at which it wakes up.
abbrev pub IsSeen : Option WriterBoundaryReport → Wakes → WriterBoundaryReport → Type 0
IsSeen state stopped report = state ≡ some report
IsSeen state (woken next wakes) report = (state ≡ some report) ⊎ IsSeen next wakes report

found-some :
    (end_timestamp : ℤ) (hash_id : Bytes) (answer : Bool) (state : Option WriterBoundaryReport)
    → found state end_timestamp hash_id ≡ some answer
    → (report : WriterBoundaryReport) × (state ≡ some report)
      × (report.end_timestamp ≡ end_timestamp)
      × (answer ≡ is_complete_in report hash_id)
unfolding found
found-some end_timestamp hash_id answer none e = ground (arith, e)
found-some end_timestamp hash_id answer (some report) e =
    elim (Bool-cases (eqb_ℤ report.end_timestamp end_timestamp)) [
      | inl same ↦ (report, refl, ground (arith, same), ground (arith, e))
      | inr other ↦ ground (arith, e, other)
    ]

-- A wait that is answered for a bucket was answered by a report that it saw, which ends where the
-- bucket ends, and the answer is whether that report has the device as complete.
pub wait_until_processed-some :
    (end_timestamp : ℤ) (hash_id : Bytes) (state : Option WriterBoundaryReport) (wakes : Wakes)
    (answer : Bool)
    → wait_until_processed end_timestamp hash_id state wakes ≡ ok (some answer)
    → (report : WriterBoundaryReport) × IsSeen state wakes report
      × (report.end_timestamp ≡ end_timestamp)
      × (answer ≡ is_complete_in report hash_id)
unfolding wait_until_processed
wait_until_processed-some end_timestamp hash_id state stopped answer e =
    elim (Bool-cases (is_before state end_timestamp)) [
      | inl before ↦ ground (arith, e, before)
      | inr ready ↦ found-some end_timestamp hash_id answer state (ground (arith, e, ready))
    ]
wait_until_processed-some end_timestamp hash_id state (woken next wakes) answer e =
    let ih = wait_until_processed-some end_timestamp hash_id next wakes answer in
    elim (Bool-cases (is_before state end_timestamp)) [
      | inl before ↦
          let (report, seen, same, told) = ih (ground (arith, e, before)) in
          (report, inr seen, same, told)
      | inr ready ↦
          let (report, seen, same, told) =
            found-some end_timestamp hash_id answer state (ground (arith, e, ready)) in
          (report, inl seen, same, told)
    ]
