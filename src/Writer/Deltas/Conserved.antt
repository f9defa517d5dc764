-- ===== src/Writer/Deltas/Conserved.antt =====
-- The conservation of writes over one scan.
use nvme_disk_mon.Common.{
  ℕ, ◌+◌, ◌≡◌, refl, ◌∙◌, true, false, ◌&&◌, List, [], ◌∷◌, some, Bytes, bytes_key, arith,
  Bool-cases, Option-cases, inl, inr, get, contains, is_some, eqb, if◌then◌else◌, keys, Distinct,
  All, get-or_insert, contains-keys, Apart-nil, any,
}
use nvme_disk_mon.Writer.Types.{
  MonitoredDevice, CounterKey, Observation, CollectorState, counter_key, device_number_key,
  cgroup_identity_changed,
}
use nvme_disk_mon.Writer.Marks.{Reasons, Baselines, is_unmarked, find_hash_id}
use nvme_disk_mon.Writer.Deltas.{
  DeltaLoop, key_of, observe_device, observe_devices, observe_all, mark_missing, mark_all_missing,
  calculate_deltas, delta_start,
}
use nvme_disk_mon.Writer.Deltas.Balance.{
  IsBalanced, total, renewed, sum_deltas, observe_counter-IsBalanced,
}
use nvme_disk_mon.Writer.Close.Complete.{has_hash_id}
use nvme_disk_mon.Writer.Collector.Marked.{mark_missing-Has}

-- The keys that a scan can read, in its order.
abbrev pub device_keys : Observation → List MonitoredDevice → List CounterKey → List CounterKey
device_keys o [] rest = rest
device_keys o (d ∷ devices) rest = key_of o d ∷ device_keys o devices rest

abbrev pub observed_keys : List MonitoredDevice → List Observation → List CounterKey
observed_keys devices [] = []
observed_keys devices (o ∷ rest) = device_keys o devices (observed_keys devices rest)

module _ (h : Bytes) (s : CollectorState) (ready : s.initialized ≡ true) where
  skip-IsBalanced :
      (key : CounterKey) (rest : List CounterKey) (l : DeltaLoop)
      → IsBalanced h s.baselines (key ∷ rest) l
      → IsBalanced h s.baselines rest l
  skip-IsBalanced key rest l v = record {
    fresh = v.fresh.1;
    to_go = v.to_go.1;
    distinct = v.distinct;
    balance = v.balance;
  }

  observe_device-IsBalanced :
      (o : Observation) (d : MonitoredDevice) (rest : List CounterKey) (l : DeltaLoop)
      → IsBalanced h s.baselines (key_of o d ∷ rest) l
      → IsBalanced h s.baselines rest (observe_device s o d l)
  unfolding observe_device
  observe_device-IsBalanced o d rest l v =
      elim (Bool-cases (contains s.currently_mapped d.hash_id)) [
        | inr f ↦ rw f (skip-IsBalanced (key_of o d) rest l v)
        | inl f ↦ rw f (elim (Option-cases (get o.counters d.number)) [
          | inl g ↦ rw g (skip-IsBalanced (key_of o d) rest l v)
          | inr (c, g) ↦ rw (g, ready) (observe_counter-IsBalanced h s.baselines o d c l rest v)
        ])
      ]

  observe_devices-IsBalanced :
      (o : Observation) (devices : List MonitoredDevice) (rest : List CounterKey) (l : DeltaLoop)
      → IsBalanced h s.baselines (device_keys o devices rest) l
      → IsBalanced h s.baselines rest (observe_devices s o devices l)
  unfolding observe_devices
  observe_devices-IsBalanced o [] rest l v = v
  observe_devices-IsBalanced o (d ∷ devices) rest l v =
      observe_devices-IsBalanced o devices rest (observe_device s o d l)
        (observe_device-IsBalanced o d (device_keys o devices rest) l v)

  observe_all-IsBalanced :
      (observations : List Observation) (l : DeltaLoop)
      → IsBalanced h s.baselines (observed_keys s.devices observations) l
      → IsBalanced h s.baselines [] (observe_all s observations l)
  unfolding observe_all
  observe_all-IsBalanced [] l v = v
  observe_all-IsBalanced (o ∷ rest) l v =
      observe_all-IsBalanced rest (observe_devices s o s.devices l)
        (observe_devices-IsBalanced o s.devices (observed_keys s.devices rest) l v)

find_hash_id-some :
    (devices : List MonitoredDevice) (h : Bytes)
    → any (has_hash_id h) devices ≡ true
    → (d : MonitoredDevice) × (find_hash_id devices h ≡ some d) × (d.hash_id ≡ h)
unfolding find_hash_id
find_hash_id-some [] h e = cc
find_hash_id-some (d ∷ devices) h e = elim (Bool-cases (eqb d.hash_id h)) [
  | inl f ↦ (d, rw f, ground (arith, f))
  | inr f ↦
      let (d', found, same) = find_hash_id-some devices h (ground (arith, f)) in
      (d', rw f found, same)
]

module _ (devices : List MonitoredDevice) (h : Bytes)
    (known : any (has_hash_id h) devices ≡ true) where
  mark_missing-keeps :
      (key : CounterKey) (m : Reasons)
      → is_unmarked (mark_missing devices key m) h ≡ true
      → is_unmarked m h ≡ true
  mark_missing-keeps key m e = elim (Option-cases (get m h)) [
    | inl f ↦ rw (f, is_unmarked)
    | inr (r, f) ↦ absurd (ground (arith, mark_missing-Has h r devices key m f))
  ]

  mark_missing_own :
      (key : CounterKey) (m : Reasons)
      → key.device_hash_id ≡ h
      → is_unmarked (mark_missing devices key m) h ≡ false
  unfolding mark_missing
  mark_missing_own key m e =
      let (d, found, same) = find_hash_id-some devices h known in
      rw (e, found, mark_missing)
        (ground (arith, get-or_insert m d.hash_id h cgroup_identity_changed))

  abbrev Renewed : Baselines → CounterKey → Type 0
  Renewed next key = key.device_hash_id ≡ h → contains (keys next) key ≡ true

  mark_all_missing-Renewed :
      (previous next : Baselines) (m : Reasons)
      → is_unmarked (mark_all_missing devices previous next m) h ≡ true
      → (is_unmarked m h ≡ true) × All (Renewed next) (keys previous)
  unfolding mark_all_missing
  mark_all_missing-Renewed [] next m e = (e, tt)
  mark_all_missing-Renewed ((key, v) ∷ previous) next m e =
      elim (Bool-cases (is_some (get next key))) [
        | inl f ↦
            let (u, rest) = mark_all_missing-Renewed previous next m (rw f at e) in
            (u, (λ _. contains-keys next key ∙ f, rest))
        | inr f ↦
            let (u, rest) =
              mark_all_missing-Renewed previous next (mark_missing devices key m) (rw f at e) in
            (
              mark_missing-keeps key m u,
              (λ own. absurd (ground (arith, u, mark_missing_own key m own)), rest),
            )
      ]

renewed-nil : (h : Bytes) (next : Baselines) → renewed h [] next ≡ 0
unfolding get
renewed-nil h [] = refl
renewed-nil h ((key, v) ∷ next) = ground (arith, renewed-nil h next)

renewed-cons :
    (h : Bytes) (key : CounterKey) (w : Bytes) (n : ℕ) (previous next : Baselines)
    → contains (keys previous) key ≡ false
    → Distinct (keys next)
    → renewed h ((key, (w, n)) ∷ previous) next
      ≡ renewed h previous next
        + (if eqb key.device_hash_id h && contains (keys next) key then n else 0)
unfolding get contains
renewed-cons h key w n previous [] f d = ground arith
renewed-cons h key w n previous ((k, v) ∷ next) f d =
    ground (arith, renewed-cons h key w n previous next f d.1, contains-keys previous key)

-- Where each counter of the device is renewed, what was read before is the previous total.
renewed-total :
    (h : Bytes) (previous next : Baselines)
    → Distinct (keys previous)
    → Distinct (keys next)
    → All (λ key. key.device_hash_id ≡ h → contains (keys next) key ≡ true) (keys previous)
    → renewed h previous next ≡ total h previous
renewed-total h [] next d e r = renewed-nil h next
renewed-total h ((key, (w, n)) ∷ previous) next d e r = ground (
  arith,
  renewed-total h previous next d.1 e r.1,
  renewed-cons h key w n previous next d.0 e,
  r.0,
)

start-IsBalanced :
    (h : Bytes) (s : CollectorState) (observations : List Observation)
    → Distinct (observed_keys s.devices observations)
    → IsBalanced h s.baselines (observed_keys s.devices observations) (delta_start s)
start-IsBalanced h s observations o = record {
  fresh = Apart-nil (observed_keys s.devices observations);
  to_go = o;
  distinct = tt;
  balance = λ _. refl;
}

-- In a scan of an initialized collector that leaves a configured device without a reason, and reads
-- no counter twice, the deltas of the device add up to what its counters gained, new ones from 0.
pub calculate_deltas-conserves :
    (s : CollectorState) (observations : List Observation) (h : Bytes)
    → s.initialized ≡ true
    → any (has_hash_id h) s.devices ≡ true
    → Distinct (keys s.baselines)
    → Distinct (observed_keys s.devices observations)
    → is_unmarked (calculate_deltas s observations).0.incomplete h ≡ true
    → total h (calculate_deltas s observations).0.baselines
      ≡ total h s.baselines + sum_deltas h (calculate_deltas s observations).1
unfolding calculate_deltas
calculate_deltas-conserves s observations h ready known d o u =
    let v =
      observe_all-IsBalanced h s ready observations (delta_start s)
        (start-IsBalanced h s observations o) in
    let l = observe_all s observations (delta_start s) in
    let (unmarked, renews) =
      mark_all_missing-Renewed s.devices h known s.baselines l.next_baselines l.incomplete u in
    omega
      (arith, v.balance unmarked, renewed-total h s.baselines l.next_baselines d v.distinct renews)
