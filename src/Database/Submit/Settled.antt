-- ===== src/Database/Submit/Settled.antt =====
-- A submission leaves nothing behind, and says no more about its batch than is known.
use nvme_disk_mon.Common.{
  ℕ, zero, suc, ◌+◌, ◌≤◌, ◌<◌, ◌≡◌, ◌≢◌, ◌⊎◌, refl, Bool, true, false, List, [], ◌∷◌, Option, none,
  some, Bytes, bytes_key, err, contains, insert_set, Bool-cases, lt→ltb, inl, inr, arith, length,
}
use nvme_disk_mon.Common.Int.{u64_end}
use nvme_disk_mon.Database.Batch.{DatabaseBatch}
use nvme_disk_mon.Database.Errors.{queue_closed}
use nvme_disk_mon.Database.Submit.{
  Acknowledgement, answered, closed, Admission, stopped, disconnected, sent, full, Requests,
  DatabaseHandle, Outcome, remove, outcome, sending, map_some, received, replayed, replays_of,
  admitted, pending_device, begin_submission, drop_submission, is_pending, submit_numbered,
  submit_inner, closed_acknowledgement_error,
}

remove-insert_set :
    (s : List Bytes) (a : Bytes) → contains s a ≡ false → remove (insert_set s a) a ≡ s
unfolding remove insert_set
remove-insert_set s a h = ground (arith, h)

drop-begin :
    (h : DatabaseHandle) (device : Option Bytes)
    → is_pending h device ≡ false
    → drop_submission (begin_submission h device) device ≡ h
unfolding is_pending begin_submission drop_submission
drop-begin h none e = ground arith
drop-begin h (some device) e = ground (arith, remove-insert_set h.pending_smart device e)

submit_numbered-restores :
    (h : DatabaseHandle) (id : ℕ) (device : Option Bytes) (r : Requests)
    → (submit_numbered h id device r).0 ≡ h
unfolding submit_numbered
submit_numbered-restores h id device r = elim (Bool-cases (is_pending h device)) [
  | inl pending ↦ rw pending refl
  | inr fresh ↦ rw (fresh, drop-begin h device fresh) refl
]

-- Whatever becomes of a submission, with an id that has a next one: behind it the cells of the handle
-- hold what they held, except that the next id is one more.
pub submit_inner-restores :
    (h : DatabaseHandle) (batch : DatabaseBatch) (r : Requests)
    → h.next_request_id + 1 < u64_end
    → (submit_inner h batch r).0 ≡ record h { next_request_id = h.next_request_id + 1 }
unfolding submit_inner
submit_inner-restores h batch r fits =
    let restored =
      submit_numbered-restores (record h { next_request_id = h.next_request_id + 1 })
        h.next_request_id (pending_device batch) r in
    rw (submit_inner, lt→ltb (h.next_request_id + 1) u64_end fits) restored

abbrev pub AllTrue : List Bool → Type 0
AllTrue [] = Unit
AllTrue (b ∷ s) = (b ≡ true) × AllTrue s

replays_of-sent :
    (id : ℕ) (replays : ℕ → Option Acknowledgement) (n : ℕ)
    → (length (replays_of id replays n).sent ≤ n) × AllTrue (replays_of id replays n).sent
unfolding replays_of replayed received outcome sending
replays_of-sent id replays zero = ground arith
replays_of-sent id replays (suc n) = ground (arith, replays_of-sent id replays n)

received-sent :
    (id : ℕ) (uncertain : Bool) (ack : Acknowledgement) (again : Outcome) (n : ℕ)
    → length again.sent ≤ n
    → AllTrue again.sent
    → (length (received id uncertain ack again).sent ≤ n)
      × AllTrue (received id uncertain ack again).sent
unfolding received outcome
received-sent id uncertain ack again n h t = ground (arith, h, t)

-- At most three requests enter the queue for a batch, and each but the first one makes the writer open
-- its connection again.
pub admitted-sent :
    (id : ℕ) (r : Requests) (a : Admission)
    → ((admitted id r a).sent ≡ [])
      ⊎ ((replays : List Bool) × ((admitted id r a).sent ≡ false ∷ replays)
          × (length replays ≤ 2)
          × AllTrue replays)
unfolding admitted received outcome sending
admitted-sent id r stopped = inl refl
admitted-sent id r disconnected = inl refl
admitted-sent id r sent =
    let (few, reopening) = replays_of-sent id r.replays 2 in
    let (few', reopening') =
      received-sent id false r.first (replays_of id r.replays 2) 2 few reopening in
    inr (_, refl, few', reopening')
admitted-sent id r (full later) = admitted-sent id r later

-- The writer does not answer that the queue is closed.
abbrev pub IsServed : Acknowledgement → Type 0
IsServed ack = ack ≢ answered (err queue_closed)

abbrev pub IsClosed : Outcome → Type 0
IsClosed o = o.result ≡ err queue_closed

received-closed :
    (id : ℕ) (uncertain : Bool) (ack : Acknowledgement) (again : Outcome)
    → IsServed ack
    → IsClosed (received id uncertain ack again)
    → IsClosed again ⊎ ((ack ≡ closed 0) × (uncertain ≡ false))
unfolding received outcome map_some closed_acknowledgement_error
received-closed id uncertain ack again served e = ground (arith, served, e)

replays_of-open :
    (id : ℕ) (replays : ℕ → Option Acknowledgement) (n : ℕ)
    → ((k : ℕ) (ack : Acknowledgement) → replays k ≡ some ack → IsServed ack)
    → ¬ (IsClosed (replays_of id replays n))
unfolding replays_of replayed outcome sending
replays_of-open id replays zero served e = ground (arith, e)
replays_of-open id replays (suc n) served e =
    go (replays_of-open id replays n served) (replays n) refl e
  where
    go :
        ¬ (IsClosed (replays_of id replays n))
        → (replay : Option Acknowledgement) → replays n ≡ replay
        → ¬ (IsClosed (replayed id replay (replays_of id replays n)))
    go ih none h e = ground (arith, e)
    go ih (some ack) h e =
        elim (received-closed id true ack (replays_of id replays n) (served n ack h) e) [
          | inl later ↦ ih later
          | inr (_, certain) ↦ ground (arith, certain)
        ]

-- Where no answer of the writer says that the queue is closed, a submission says so only if nothing
-- entered the queue, or one request did and was still queued when its channel was closed: of a batch
-- that a writer may have begun it is never said.
pub admitted-queue_closed :
    (id : ℕ) (r : Requests) (a : Admission)
    → IsServed r.first
    → ((k : ℕ) (ack : Acknowledgement) → r.replays k ≡ some ack → IsServed ack)
    → (admitted id r a).result ≡ err queue_closed
    → ((admitted id r a).sent ≡ []) ⊎ ((r.first ≡ closed 0) × ((admitted id r a).sent ≡ false ∷ []))
unfolding admitted received outcome sending
admitted-queue_closed id r stopped first later e = inl refl
admitted-queue_closed id r disconnected first later e = inl refl
admitted-queue_closed id r (full a) first later e = admitted-queue_closed id r a first later e
admitted-queue_closed id r sent first later e =
    elim (received-closed id false r.first (replays_of id r.replays 2) first e) [
      | inl closed_later ↦ absurd (replays_of-open id r.replays 2 later closed_later)
      | inr (queued, _) ↦ inr (queued, alone r.first queued)
    ]
  where
    alone :
        (ack : Acknowledgement)
        → ack ≡ closed 0
        → false ∷ (received id false ack (replays_of id r.replays 2)).sent ≡ false ∷ []
    alone ack h = rw h refl
