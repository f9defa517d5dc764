-- ===== src/Writer/Deltas/Balance.antt =====
-- No write is lost, and none is counted twice: in a scan that leaves a device without a reason, the
-- deltas of the device are what its counters gained.
use nvme_disk_mon.Common.{
  ℕ, ◌+◌, ◌≡◌, refl, Bool, true, false, List, [], ◌∷◌, ◌++◌, Option, none, some, Bytes, bytes_key,
  arith, get, contains, eqb, if◌then◌else◌, keys, Distinct, Apart, Distinct-append_last,
  Apart-append_last, insert-fresh, keys-append_last, get-or_insert,
}
use nvme_disk_mon.Writer.Types.{
  MonitoredDevice, BucketIncompleteReason, CounterKey, Observation, counter_key, device_number_key,
}
use nvme_disk_mon.Writer.Marks.{Reasons, Baselines, WriteDelta, is_unmarked}
use nvme_disk_mon.Writer.Deltas.{
  DeltaLoop, delta_of, mark_reason, push_delta, key_of, observe_counter, get_or_zero,
}

-- The previous reading under a key, 0 where there is none.
abbrev pub reading : Option (Bytes × ℕ) → ℕ
reading none = 0
reading (some (_, n)) = n

-- The sum of the readings of one device.
abbrev pub total : Bytes → Baselines → ℕ
total h [] = 0
total h ((key, (_, n)) ∷ m) = (if eqb key.device_hash_id h then n else 0) + total h m

-- The sum of the deltas of one device.
abbrev pub sum_deltas : Bytes → List WriteDelta → ℕ
sum_deltas h [] = 0
sum_deltas h ((a, _, n) ∷ deltas) = (if eqb a h then n else 0) + sum_deltas h deltas

-- The sum of what was read before under the keys that a scan renews.
abbrev pub renewed : Bytes → Baselines → Baselines → ℕ
renewed h previous [] = 0
renewed h previous ((key, _) ∷ m) =
    (if eqb key.device_hash_id h then reading (get previous key) else 0) + renewed h previous m

total-append_last :
    (h : Bytes) (m : Baselines) (key : CounterKey) (w : Bytes) (n : ℕ)
    → total h (m ++ (key, (w, n)) ∷ []) ≡ total h m + (if eqb key.device_hash_id h then n else 0)
total-append_last h [] key w n = omega arith
total-append_last h ((k, (v, i)) ∷ m) key w n = omega (arith, total-append_last h m key w n)

renewed-append_last :
    (h : Bytes) (previous m : Baselines) (key : CounterKey) (v : Bytes × ℕ)
    → renewed h previous (m ++ (key, v) ∷ [])
      ≡ renewed h previous m + (if eqb key.device_hash_id h then reading (get previous key) else 0)
renewed-append_last h previous [] key v = omega arith
renewed-append_last h previous ((k, w) ∷ m) key v =
    omega (arith, renewed-append_last h previous m key v)

sum_deltas-append_last :
    (h : Bytes) (deltas : List WriteDelta) (a w : Bytes) (n : ℕ)
    → sum_deltas h (deltas ++ (a, w, n) ∷ []) ≡ sum_deltas h deltas + (if eqb a h then n else 0)
sum_deltas-append_last h [] a w n = omega arith
sum_deltas-append_last h ((b, v, i) ∷ deltas) a w n =
    omega (arith, sum_deltas-append_last h deltas a w n)

sum_deltas-push_delta :
    (h : Bytes) (deltas : List WriteDelta) (a w : Bytes) (o : Option ℕ)
    → sum_deltas h (push_delta deltas a w o)
      ≡ sum_deltas h deltas + (if eqb a h then get_or_zero o else 0)
unfolding push_delta
sum_deltas-push_delta h deltas a w none = ground arith
sum_deltas-push_delta h deltas a w (some n) = ground (arith, sum_deltas-append_last h deltas a w n)

-- The loop over the counters, with these keys to go.
pub record IsBalanced (h : Bytes) (previous : Baselines) (rest : List CounterKey) (l : DeltaLoop)
    : Type 0 where
  pub fresh : Apart (keys l.next_baselines) rest
  pub to_go : Distinct rest
  pub distinct : Distinct (keys l.next_baselines)
  pub balance :
      is_unmarked l.incomplete h ≡ true
      → total h l.next_baselines ≡ renewed h previous l.next_baselines + sum_deltas h l.deltas

-- One reading: without a reason, the delta is the gain.
delta_of_gain :
    (o : Option (Bytes × ℕ)) (seen : Bool) (current : ℕ)
    → (delta_of o true seen current).1 ≡ none
    → reading o + get_or_zero (delta_of o true seen current).0 ≡ current
unfolding delta_of
delta_of_gain o seen current e = ground arith

is_unmarked-mark_reason :
    (m : Reasons) (a h : Bytes) (o : Option BucketIncompleteReason)
    → is_unmarked (mark_reason m a o) h ≡ true
    → (is_unmarked m h ≡ true) × (eqb a h ≡ true → o ≡ none)
unfolding mark_reason
is_unmarked-mark_reason m a h none e = (e, λ _. refl)
is_unmarked-mark_reason m a h (some r) e = ground (arith, get-or_insert m a h r)

module _ (h : Bytes) (previous : Baselines) (o : Observation) (d : MonitoredDevice) (current : ℕ)
    (l : DeltaLoop) where
  abbrev after : DeltaLoop
  after = observe_counter true previous o d current l

  abbrev outcome : Option ℕ × Option BucketIncompleteReason
  outcome =
      delta_of (get previous (key_of o d)) true (contains l.seen_instances (key_of o d)) current

  observe_counter-balance :
      contains (keys l.next_baselines) (key_of o d) ≡ false
      → (is_unmarked l.incomplete h ≡ true
          → total h l.next_baselines ≡ renewed h previous l.next_baselines + sum_deltas h l.deltas)
      → is_unmarked after.incomplete h ≡ true
      → total h after.next_baselines
        ≡ renewed h previous after.next_baselines + sum_deltas h after.deltas
  unfolding observe_counter
  observe_counter-balance fresh balance unmarked =
      rw (insert-fresh l.next_baselines (key_of o d) (o.workload_name, current) fresh) (
        ground (
          arith,
          total-append_last h l.next_baselines (key_of o d) o.workload_name current,
          renewed-append_last h previous l.next_baselines (key_of o d) (o.workload_name, current),
          sum_deltas-push_delta h l.deltas d.hash_id o.workload_name outcome.0,
          is_unmarked-mark_reason l.incomplete d.hash_id h outcome.1 unmarked,
          delta_of_gain (get previous (key_of o d)) (contains l.seen_instances (key_of o d))
              current,
        ))

  pub observe_counter-IsBalanced :
      (rest : List CounterKey)
      → IsBalanced h previous (key_of o d ∷ rest) l
      → IsBalanced h previous rest after
  unfolding observe_counter
  observe_counter-IsBalanced rest v = record {
    fresh =
        rw
          (
            insert-fresh l.next_baselines (key_of o d) (o.workload_name, current) v.fresh.0,
            keys-append_last,
          )
          (Apart-append_last (keys l.next_baselines) (key_of o d) rest v.fresh.1 v.to_go.0);
    to_go = v.to_go.1;
    distinct =
        rw
          (
            insert-fresh l.next_baselines (key_of o d) (o.workload_name, current) v.fresh.0,
            keys-append_last,
          )
          (Distinct-append_last (keys l.next_baselines) (key_of o d) v.distinct v.fresh.0);
    balance = observe_counter-balance v.fresh.0 v.balance;
  }
