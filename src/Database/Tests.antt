-- ===== src/Database/Tests.antt =====
-- Runs of the database writer and of a submission on small inputs, and the theorems at them.
use nvme_disk_mon.Common.{
  ℕ, zero, suc, ◌≤◌, ◌≡◌, ◌⊎◌, refl, Bool, true, false, List, [], ◌∷◌, none, some, Bytes, bytes,
  Result, ok, err, length, arith,
}
use nvme_disk_mon.Common.Int.{pos}
use nvme_disk_mon.Database.Batch.{SmartSampleBatch, smart_sample}
use nvme_disk_mon.Database.Errors.{DbWriteError, queue_closed, database_busy, system_io_failure}
use nvme_disk_mon.Database.Process.{Answers, Writer, process_request}
use nvme_disk_mon.Database.Process.Atomic.{Replayable, process_request-IsAtomic}
use nvme_disk_mon.Database.Process.Retries.{total, process_request-delays}
use nvme_disk_mon.Database.Recovery.{
  decode_data_units_written, decode_data_units_written-to_be_bytes,
}
use nvme_disk_mon.Monitor.Device.{to_be_bytes}
use nvme_disk_mon.Database.Rows.{
  SmartRows, write_smart_sample, write_smart_sample-Replayable, IsUpserted,
  write_smart_sample-IsUpserted,
}
use nvme_disk_mon.Database.Submit.{
  Acknowledgement, closed, answered, sent, full, Requests, DatabaseHandle, submit_inner, admitted,
}
use nvme_disk_mon.Database.Submit.Settled.{
  submit_inner-restores, AllTrue, admitted-sent, admitted-queue_closed, IsServed,
}

abbrev sample : SmartSampleBatch
sample = record {
  device_hash_id = bytes "a";
  timestamp = pos 60_000;
  data_units_written_be = 4 ∷ [];
  write_amount_bytes = none;
}

-- An attempt that goes well, one that finds the database busy, and one whose COMMIT took effect
-- without an answer.
abbrev well : Answers
well = record {
  begin = none;
  statement = none;
  commit = none;
  landed = true;
  rollback = none;
  reopened = ok (bytes "a" ∷ []);
  registered = ok [];
}

abbrev answers_a : ℕ → Answers
answers_a (suc (suc zero)) = record well { begin = some (some database_busy) }
answers_a (suc zero) = record well { commit = some (some system_io_failure) }
answers_a _ = well

abbrev writer_a : Writer SmartRows
writer_a = record { store = []; connected = true; tables = bytes "a" ∷ [] }

abbrev write_a : List Bytes → SmartRows → Result SmartRows DbWriteError
write_a = write_smart_sample 7 sample

write_smart_sample-IsUpserted_example :
    IsUpserted 7 sample (bytes "a" ∷ []) [] (write_a (bytes "a" ∷ []) [])
write_smart_sample-IsUpserted_example = write_smart_sample-IsUpserted 7 sample (bytes "a" ∷ []) []

abbrev laws_a : Replayable write_a
laws_a = write_smart_sample-Replayable 7 sample

process_request-IsAtomic_example :
    (let p = process_request 7 false write_a answers_a (ok tt) writer_a in
      ((p.writer.store ≡ writer_a.store) ⊎ (p.writer.store ≡ laws_a.effect writer_a.store))
      × (p.result ≡ ok tt → p.writer.store ≡ laws_a.effect writer_a.store))
process_request-IsAtomic_example =
    process_request-IsAtomic write_a (write_smart_sample-Replayable 7 sample) 7 false answers_a
      writer_a

process_request-delays_example :
    total (process_request 7 false write_a answers_a (ok tt) writer_a).delays ≤ 150
process_request-delays_example = process_request-delays write_a 7 false answers_a (ok tt) writer_a

abbrev handle_a : DatabaseHandle
handle_a = record { next_request_id = 1; pending_smart = bytes "b" ∷ []; unconfirmed_requests = 0 }

-- The queue is full once, the first acknowledgement is lost while the request was executed, and the
-- first replay is answered.
abbrev requests_a : Requests
requests_a = record {
  admission = full sent;
  first = closed 1;
  replays = λ _. some (answered (ok 1));
}

submit_inner-restores_example :
    (submit_inner handle_a (smart_sample sample) requests_a).0
    ≡ record handle_a { next_request_id = 2 }
submit_inner-restores_example =
    submit_inner-restores handle_a (smart_sample sample) requests_a (omega arith)

admitted-sent_example :
    ((admitted 1 requests_a (full sent)).sent ≡ [])
    ⊎ ((replays : List Bool) × ((admitted 1 requests_a (full sent)).sent ≡ false ∷ replays)
        × (length replays ≤ 2)
        × AllTrue replays)
admitted-sent_example = admitted-sent 1 requests_a (full sent)

abbrev requests_b : Requests
requests_b = record { admission = sent; first = closed 0; replays = λ _. none }

closed-IsServed : IsServed (closed 0)
closed-IsServed e = ground (arith, e)

unserved : (k : ℕ) (ack : Acknowledgement) → none ≡ some ack → IsServed ack
unserved k ack e = ground (arith, e)

closed_b : (admitted 1 requests_b sent).result ≡ err queue_closed
unfolding admitted
closed_b = refl

admitted-queue_closed_example :
    ((admitted 1 requests_b sent).sent ≡ [])
    ⊎ ((closed 0 ≡ closed 0) × ((admitted 1 requests_b sent).sent ≡ false ∷ []))
admitted-queue_closed_example =
    admitted-queue_closed 1 requests_b sent closed-IsServed unserved closed_b

decode_data_units_written-to_be_bytes_example :
    decode_data_units_written (bytes "a") (pos 60_000) (to_be_bytes 16 1_000_000) ≡ ok 1_000_000
decode_data_units_written-to_be_bytes_example =
    decode_data_units_written-to_be_bytes (bytes "a") (pos 60_000) 1_000_000 (omega arith)
