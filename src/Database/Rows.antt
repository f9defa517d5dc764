-- ===== src/Database/Rows.antt =====
-- `write_smart_sample` of src/database/task.rs. The tables `d_<hash>_data` of src/database/schema.rs are
-- one map, keyed by the hash of the device and by the timestamp, their primary key; an upsert is
-- `insert` of the map. The set of tables that are known is the list of hashes.
use nvme_disk_mon.Common.{
  ℕ, ◌≡◌, refl, ap, true, false, Bool, not, List, Option, Bytes, bytes_key, ℕ_discrete, Key, Result,
  ok, err, ◌>>◌, fail_if, contains, get, insert, get-insert, Bool-cases, inl, inr, some, ite, arith,
  if_pos, if_neg, [], ◌∷◌,
}
use nvme_disk_mon.Common.Int.{ℤ}
use nvme_disk_mon.Database.Batch.{SmartSampleBatch}
use nvme_disk_mon.Database.Errors.{DbWriteError, unknown_device, invalid_batch}
use nvme_disk_mon.Database.Process.Atomic.{Replayable}

-- A row of a table `d_<hash>_data` behind its key.
pub record SmartRow : Type 0 where
  pub data_units_written_be : List ℕ
  pub write_amount_bytes : Option ℤ

pub record RowKey : Type 0 where
  pub hash_id : Bytes
  pub timestamp : ℤ

ℤ-discrete : Discrete ℤ
unfolding ℕ_discrete
ℤ-discrete = hlevel ℕ_discrete

unfoldable pub RowKey-discrete : Discrete RowKey
unfolding ℤ-discrete ℕ_discrete
RowKey-discrete = hlevel ℕ_discrete

instance abbrev pub row_key : Key RowKey
row_key = record { same = RowKey-discrete }

abbrev pub SmartRows : Type 0
SmartRows = List (RowKey × SmartRow)

abbrev pub row_of : SmartSampleBatch → SmartRow
row_of sample = record {
  data_units_written_be = sample.data_units_written_be;
  write_amount_bytes = sample.write_amount_bytes;
}

abbrev pub key_of : SmartSampleBatch → RowKey
key_of sample = record { hash_id = sample.device_hash_id; timestamp = sample.timestamp }

unfoldable pub write_smart_sample :
    ℕ → SmartSampleBatch → List Bytes → SmartRows → Result SmartRows DbWriteError
write_smart_sample request_id sample tables rows = do
  fail_if (not (contains tables sample.device_hash_id)) (invalid_batch request_id unknown_device)
  ok (insert rows (key_of sample) (row_of sample))

module _ {K V : Type 0} ⦃k : Key K⦄ where
  -- The second of two equal upserts changes nothing.
  pub insert-insert : (m : List (K × V)) (a : K) (v : V) → insert (insert m a v) a v ≡ insert m a v
  unfolding insert
  insert-insert [] a v = rw (if_pos (k.same a a) refl) refl
  insert-insert ((b, w) ∷ m) a v = elim (k.same a b) [
    | yes e ↦ rw (if_pos (k.same a b) e) (rw (if_pos (k.same a a) refl) refl)
    | no n ↦
        rw (if_neg (k.same a b) n, if_neg (k.same a b) n) (ap (◌∷◌ (b, w)) (insert-insert m a v))
  ]

written :
    (b : Bool) (e : DbWriteError) (rows after : SmartRows)
    → (fail_if b e >> ok rows) ≡ ok after
    → after ≡ rows
written true e rows after h = ground (arith, h)
written false e rows after h = ground (arith, h)

-- Writing a sample is a body that may be repeated.
pub write_smart_sample-Replayable :
    (request_id : ℕ) (sample : SmartSampleBatch) → Replayable (write_smart_sample request_id sample)
unfolding write_smart_sample
write_smart_sample-Replayable request_id sample = record {
  effect = λ rows. insert rows (key_of sample) (row_of sample);
  write-effect = λ tables before after e.
      written (not (contains tables sample.device_hash_id))
        (invalid_batch request_id unknown_device) (insert before (key_of sample) (row_of sample))
        after e;
  effect-effect = λ rows. insert-insert rows (key_of sample) (row_of sample);
}

-- What the body makes of the rows: for a device without a table an error; otherwise the row of the
-- sample under its device and its time, every other row as before, and nothing more when it is
-- repeated.
abbrev pub IsUpserted :
    ℕ → SmartSampleBatch → List Bytes → SmartRows → Result SmartRows DbWriteError → Type 0
IsUpserted request_id sample tables rows (err error) =
    (contains tables sample.device_hash_id ≡ false)
    × (error ≡ invalid_batch request_id unknown_device)
IsUpserted request_id sample tables rows (ok after) =
    (contains tables sample.device_hash_id ≡ true)
    × ((row : RowKey)
        → get after row
          ≡ ite
              (RowKey-discrete row
                (record { hash_id = sample.device_hash_id; timestamp = sample.timestamp }))
              (some (record {
                data_units_written_be = sample.data_units_written_be;
                write_amount_bytes = sample.write_amount_bytes;
              }))
              (get rows row))
    × (write_smart_sample request_id sample tables after ≡ ok after)

-- Writing a sample fails exactly for a device without a table, with the error for an unknown
-- device; otherwise the row of the device and the time of the sample is that of the sample, every
-- other row is as before, and writing it a second time changes nothing.
pub write_smart_sample-IsUpserted :
    (request_id : ℕ) (sample : SmartSampleBatch) (tables : List Bytes) (rows : SmartRows)
    → IsUpserted request_id sample tables rows (write_smart_sample request_id sample tables rows)
unfolding write_smart_sample
write_smart_sample-IsUpserted request_id sample tables rows =
    elim (Bool-cases (contains tables sample.device_hash_id)) [
      | inl known ↦
          rw (known, known)
            (
              refl,
              λ row. get-insert rows (key_of sample) row (row_of sample),
              ap ok (insert-insert rows (key_of sample) (row_of sample)),
            )
      | inr unknown ↦ rw (unknown, unknown) (refl, refl)
    ]
