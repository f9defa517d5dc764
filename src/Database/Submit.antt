-- ===== src/Database/Submit.antt =====
-- `DatabaseHandle::submit_inner`, `closed_acknowledgement_error` and `PendingSubmission` of
-- src/database/mod.rs. The queue and the writer behind it are what a run sees of them: the tries to
-- enter the queue, and for each request that entered it the map_some or the end of its channel.
pub mod Settled
use nvme_disk_mon.Common.{
  ℕ, zero, suc, ◌+◌, ◌-◌, ◌==◌, Bool, true, false, not, ◌&&◌, List, [], ◌∷◌, Option, none, some,
  Bytes, bytes_key, Result, ok, err, Key, if◌then◌else◌, contains, insert_set, ite,
}
use nvme_disk_mon.Common.Int.{checked_unsigned, u64_end}
use nvme_disk_mon.Database.Batch.{DatabaseBatch, register_devices, smart_sample, writer_bucket}
use nvme_disk_mon.Database.Errors.{
  DbWriteError, queue_closed, commit_acknowledgement_lost, invalid_batch, value_out_of_sqlite_range,
  smart_batch_already_pending,
}

-- The `progress` of a request.
abbrev pub request_queued : ℕ
request_queued = 0

abbrev pub request_executing : ℕ
request_executing = 1

unfoldable pub closed_acknowledgement_error : ℕ → ℕ → Bool → DbWriteError
closed_acknowledgement_error request_id progress earlier_outcome_was_uncertain =
    if (progress == request_queued) && not earlier_outcome_was_uncertain
    then queue_closed
    else commit_acknowledgement_lost request_id

-- `commit_ack.recv()`: the answer of the writer, or a closed channel and the progress then.
pub data Acknowledgement : Type 0 where
  answered : Result ℕ DbWriteError → Acknowledgement
  closed : ℕ → Acknowledgement

-- The tries of the first request: with a flag to stop, each try reads it first and may find the queue
-- full; without one, `send` waits and fails only where the queue is closed.
pub data Admission : Type 0 where
  stopped disconnected sent : Admission
  full : Admission → Admission

-- A replay: `none` where the queue is closed.
pub record Requests : Type 0 where
  pub admission : Admission
  pub first : Acknowledgement
  pub replays : ℕ → Option Acknowledgement

-- `DatabaseHandle`, with the values of its shared cells.
pub record DatabaseHandle : Type 0 where
  pub next_request_id : ℕ
  pub pending_smart : List Bytes
  pub unconfirmed_requests : ℕ

-- `pending.remove(device_hash_id)`
unfoldable pub remove : List Bytes → Bytes → List Bytes
remove [] a = []
remove (b ∷ s) a = ite (bytes_key.same a b) s (b ∷ remove s a)

-- What entered the queue: `replay_requires_reopen` of each request, in order.
pub record Outcome : Type 0 where
  pub result : Result (Option ℕ) DbWriteError
  pub sent : List Bool

unfoldable pub outcome : Result (Option ℕ) DbWriteError → Outcome
outcome result = record { result = result; sent = [] }

unfoldable pub sending : Bool → Outcome → Outcome
sending replay_requires_reopen o = record o { sent = replay_requires_reopen ∷ o.sent }

-- `result.map(Some)`
unfoldable pub map_some : Result ℕ DbWriteError → Result (Option ℕ) DbWriteError
map_some (ok request_id) = ok (some request_id)
map_some (err error) = err error

-- Behind `ack_receiver.recv()`; `again` is what follows where the outcome is uncertain.
unfoldable pub received : ℕ → Bool → Acknowledgement → Outcome → Outcome
unfolding map_some closed_acknowledgement_error outcome
received request_id uncertain (answered result) again = outcome (map_some result)
received request_id uncertain (closed progress) again =
    if progress == request_queued
    then outcome (err (closed_acknowledgement_error request_id request_queued uncertain))
    else again

unfoldable pub replayed : ℕ → Option Acknowledgement → Outcome → Outcome
unfolding received outcome sending
replayed request_id none again = outcome (err (commit_acknowledgement_lost request_id))
replayed request_id (some ack) again = sending true (received request_id true ack again)

-- The iterations behind the first one, with the number of those that are left.
unfoldable pub replays_of : ℕ → (ℕ → Option Acknowledgement) → ℕ → Outcome
unfolding replayed outcome
replays_of request_id replays zero = outcome (err (commit_acknowledgement_lost request_id))
replays_of request_id replays (suc n) =
    let again = replays_of request_id replays n in replayed request_id (replays n) again

-- `MAX_ACK_REPLAY_ATTEMPTS` is 3, the first one included.
unfoldable pub admitted : ℕ → Requests → Admission → Outcome
unfolding received replays_of outcome sending
admitted request_id r stopped = outcome (ok none)
admitted request_id r disconnected = outcome (err queue_closed)
admitted request_id r sent =
    sending false (received request_id false r.first (replays_of request_id r.replays 2))
admitted request_id r (full later) = admitted request_id r later

-- `sample.device_hash_id` of a batch that has one
unfoldable pub pending_device : DatabaseBatch → Option Bytes
pending_device (smart_sample sample) = some sample.device_hash_id
pending_device (register_devices _) = none
pending_device (writer_bucket _) = none

unfoldable pub begin_submission : DatabaseHandle → Option Bytes → DatabaseHandle
begin_submission h none = record h { unconfirmed_requests = h.unconfirmed_requests + 1 }
begin_submission h (some device) = record h {
  unconfirmed_requests = h.unconfirmed_requests + 1;
  pending_smart = insert_set h.pending_smart device;
}

-- `PendingSubmission::drop`
unfoldable pub drop_submission : DatabaseHandle → Option Bytes → DatabaseHandle
unfolding remove
drop_submission h none = record h { unconfirmed_requests = h.unconfirmed_requests - 1 }
drop_submission h (some device) = record h {
  unconfirmed_requests = h.unconfirmed_requests - 1;
  pending_smart = remove h.pending_smart device;
}

unfoldable pub is_pending : DatabaseHandle → Option Bytes → Bool
is_pending h none = false
is_pending h (some device) = contains h.pending_smart device

unfoldable pub submit_numbered :
    DatabaseHandle → ℕ → Option Bytes → Requests → DatabaseHandle × Outcome
unfolding begin_submission drop_submission is_pending admitted outcome
submit_numbered h request_id device r =
    if is_pending h device
    then (h, outcome (err (invalid_batch request_id smart_batch_already_pending)))
    else (drop_submission (begin_submission h device) device, admitted request_id r r.admission)

-- `fetch_update` gives the id before the addition.
unfoldable pub submit_inner : DatabaseHandle → DatabaseBatch → Requests → DatabaseHandle × Outcome
unfolding submit_numbered pending_device outcome
submit_inner h batch r = elim (checked_unsigned u64_end (h.next_request_id + 1)) [
  | none ↦ (h, outcome (err (invalid_batch (u64_end - 1) value_out_of_sqlite_range)))
  | some next ↦
      submit_numbered (record h { next_request_id = next }) h.next_request_id (pending_device batch)
        r
]
