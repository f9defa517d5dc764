-- ===== src/Writer/Close/Batch.antt =====
-- The batch of a closed bucket is one that the database accepts.
use mathlib.Core.List.{map-append}
use nvme_disk_mon.Common.{
  ◌≡◌, refl, true, false, List, [], ◌∷◌, Option, none, some, Bytes, bytes, bytes_key, contains, get,
  starts_with, All, Distinct, Apart, keys, arith, Option-cases, inl, inr, All-append_last,
  Distinct-append_last, Apart-append_last, Apart-nil,
}
use nvme_disk_mon.Database.Batch.{WriterAmount, WriterBucketBatch}
use nvme_disk_mon.Database.Validate.{
  is_valid_hash_id, is_valid_workload_name, is_not_positive, is_unaligned,
}
use nvme_disk_mon.Database.Validate.Accepts.{
  IsGoodAmount, IsGoodDevice, IsGoodBucket, device_ids, workload_names,
}
use nvme_disk_mon.Writer.Types.{MonitoredDevice, CollectorState, amount_key}
use nvme_disk_mon.Writer.Marks.{hash_ids}
use nvme_disk_mon.Writer.Deltas.{Amounts}
use nvme_disk_mon.Writer.Close.{
  CloseLoop, close_amounts, close_device, close_devices, close_start, close_current_bucket,
  device_amounts, insert_sorted, sort_by_workload,
}

-- A workload name that the database takes.
pub record IsGoodName (name : Bytes) : Type 0 where
  pub not_reserved : starts_with (bytes "ndm:") name ≡ false
  pub named : is_valid_workload_name name ≡ true

abbrev pub GoodKeys : List (Bytes × Bytes) → Type 0
GoodKeys = All (λ key. IsGoodName key.1)

-- What holds of the amounts, where they are in range.
abbrev Lacks : Bytes → Option (List WriterAmount) → Type 0
Lacks w none = Unit
Lacks w (some amounts) = contains (workload_names amounts) w ≡ false

abbrev Good : Option (List WriterAmount) → Type 0
Good none = Unit
Good (some amounts) = All IsGoodAmount amounts × Distinct (workload_names amounts)

device_amounts-Lacks :
    (h : Bytes) (m : Amounts) (w : Bytes)
    → contains (keys m) (h, w) ≡ false
    → Lacks w (device_amounts h m)
unfolding contains device_amounts
device_amounts-Lacks h [] w n = refl
device_amounts-Lacks h (((h', w'), a) ∷ m) w n = ground (arith, device_amounts-Lacks h m w)

device_amounts-Good :
    (h : Bytes) (m : Amounts) → Distinct (keys m) → GoodKeys (keys m) → Good (device_amounts h m)
unfolding device_amounts is_not_positive
device_amounts-Good h [] d g = (tt, tt)
device_amounts-Good h (((h', w'), a) ∷ m) d g =
    ground (arith, device_amounts-Good h m d.1 g.1, device_amounts-Lacks h m w')

-- Sorting keeps the names and the amounts.
contains-insert_sorted :
    (a : WriterAmount) (xs : List WriterAmount) (w : Bytes)
    → contains (workload_names (insert_sorted a xs)) w ≡ contains (workload_names (a ∷ xs)) w
unfolding contains insert_sorted
contains-insert_sorted a [] w = refl
contains-insert_sorted a (b ∷ xs) w = ground (arith, contains-insert_sorted a xs w)

insert_sorted-Good :
    (a : WriterAmount) (xs : List WriterAmount)
    → Good (some (a ∷ xs))
    → Good (some (insert_sorted a xs))
unfolding contains insert_sorted
insert_sorted-Good a [] g = g
insert_sorted-Good a (b ∷ xs) g =
    ground (arith, insert_sorted-Good a xs, contains-insert_sorted a xs b.workload_name)

contains-sort_by_workload :
    (xs : List WriterAmount) (w : Bytes)
    → contains (workload_names (sort_by_workload xs)) w ≡ contains (workload_names xs) w
unfolding contains sort_by_workload
contains-sort_by_workload [] w = refl
contains-sort_by_workload (a ∷ xs) w =
    ground (arith, contains-sort_by_workload xs w, contains-insert_sorted a (sort_by_workload xs) w)

sort_by_workload-Good :
    (xs : List WriterAmount) → Good (some xs) → Good (some (sort_by_workload xs))
unfolding sort_by_workload
sort_by_workload-Good [] g = (tt, tt)
sort_by_workload-Good (a ∷ xs) g = ground (
  arith,
  sort_by_workload-Good xs,
  insert_sorted-Good a (sort_by_workload xs),
  contains-sort_by_workload xs a.workload_name,
)

-- A configured device whose hash the database knows.
pub record IsKnown (tables : List Bytes) (device : MonitoredDevice) : Type 0 where
  pub safe : is_valid_hash_id device.hash_id ≡ true
  pub known : contains tables device.hash_id ≡ true

-- The loop of `close_current_bucket`, with these devices to go.
record IsClosing (tables : List Bytes) (devices : List MonitoredDevice) (l : CloseLoop)
    : Type 0 where
  good : All (IsGoodDevice tables) l.device_buckets
  distinct : Distinct (device_ids l.device_buckets)
  apart : Apart (device_ids l.device_buckets) (hash_ids devices)
  rest : Distinct (hash_ids devices)

module _ (tables : List Bytes) (m : Amounts) (distinct : Distinct (keys m))
    (names : GoodKeys (keys m)) where
  close_amounts-IsClosing :
      (d : MonitoredDevice) (devices : List MonitoredDevice) (l : CloseLoop)
      (o : Option (List WriterAmount))
      → IsKnown tables d
      → Good o
      → IsClosing tables (d ∷ devices) l
      → IsClosing tables devices (close_amounts d o l)
  unfolding close_amounts
  close_amounts-IsClosing d devices l none k g c = record {
    good = c.good;
    distinct = c.distinct;
    apart = c.apart.1;
    rest = c.rest.1;
  }
  close_amounts-IsClosing d devices l (some amounts) k g c = record {
    good = All-append_last (IsGoodDevice tables) l.device_buckets _ c.good (record {
      safe = k.safe;
      known = k.known;
      amounts = (sort_by_workload-Good amounts g).0;
      distinct = (sort_by_workload-Good amounts g).1;
    });
    distinct =
        rw map-append
          (Distinct-append_last (device_ids l.device_buckets) d.hash_id c.distinct c.apart.0);
    apart = rw map-append (
        Apart-append_last (device_ids l.device_buckets) d.hash_id (hash_ids devices) c.apart.1
          c.rest.0);
    rest = c.rest.1;
  }

  close_device-IsClosing :
      (d : MonitoredDevice) (devices : List MonitoredDevice) (l : CloseLoop)
      → IsKnown tables d
      → IsClosing tables (d ∷ devices) l
      → IsClosing tables devices (close_device m d l)
  unfolding close_device
  close_device-IsClosing d devices l k c = elim (Option-cases (get l.incomplete d.hash_id)) [
    | inl e ↦
        rw (e, close_device)
          (close_amounts-IsClosing d devices l (device_amounts d.hash_id m) k
            (device_amounts-Good d.hash_id m distinct names) c)
    | inr (r, e) ↦
        rw (e, close_device)
          (record { good = c.good; distinct = c.distinct; apart = c.apart.1; rest = c.rest.1 })
  ]

  close_devices-IsClosing :
      (devices : List MonitoredDevice) (l : CloseLoop)
      → All (IsKnown tables) devices
      → IsClosing tables devices l
      → IsClosing tables [] (close_devices m devices l)
  unfolding close_devices
  close_devices-IsClosing [] l k c = c
  close_devices-IsClosing (d ∷ devices) l k c =
      close_devices-IsClosing devices (close_device m d l) k.1
        (close_device-IsClosing d devices l k.0 c)

-- What the open bucket promises: known and distinct devices, a minute from 0 on, and amounts under
-- distinct keys with names that the database takes.
pub record IsSound (tables : List Bytes) (s : CollectorState) : Type 0 where
  pub known : All (IsKnown tables) s.devices
  pub distinct : Distinct (hash_ids s.devices)
  pub aligned : is_unaligned s.current_bucket ≡ false
  pub keys_distinct : Distinct (keys s.amounts)
  pub names : GoodKeys (keys s.amounts)

pub close_current_bucket-IsGoodBucket :
    (tables : List Bytes) (s : CollectorState) (b : WriterBucketBatch)
    → IsSound tables s
    → (close_current_bucket s).1.batch ≡ some b
    → IsGoodBucket tables b
unfolding close_current_bucket
close_current_bucket-IsGoodBucket tables s b h e =
    let closing =
      close_devices-IsClosing tables s.amounts h.keys_distinct h.names s.devices (close_start s)
        h.known
        (record {
          good = tt;
          distinct = tt;
          apart = Apart-nil (hash_ids s.devices);
          rest = h.distinct;
        }) in
    ground (arith, closing.good, closing.distinct, h.aligned)
