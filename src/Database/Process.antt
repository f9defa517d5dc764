-- ===== src/Database/Process.antt =====
-- `execute_transaction`, `reopen_writer_connection` and `process_request` of src/database/task.rs. SQLite
-- is `Answers`: what it says to each command of an attempt. The rows are a `Store` of any kind and
-- `write` is the body of the transaction.
pub mod Atomic
pub mod Retries
use Prim.Native.String.{String}
use nvme_disk_mon.Common.{
  ℕ, zero, suc, ◌*◌, Bool, true, false, List, [], ◌∷◌, Option, none, some, Bytes, Result, ok, err,
  if◌then◌else◌,
}
use nvme_disk_mon.Database.Batch.{DatabaseBatch, register_devices}
use nvme_disk_mon.Database.Errors.{
  ErrorCode, ErrorSource, sqlite, DbWriteError, busy, transaction, commit_outcome_unknown,
  rollback_failed, queue_closed, is_busy_or_locked, commit_outcome_may_be_unknown,
  is_recoverable_transaction, is_connection_fatal, map_sqlite_error,
}

-- `none` is success, `some code` an error with that code. A statement of the body that fails gives its
-- error; `landed` says whether a COMMIT of unknown outcome took effect. The last two are the tables
-- that are found after the connection was opened again and after a registration.
pub record Answers : Type 0 where
  pub begin : Option (Option ErrorCode)
  pub statement : Option DbWriteError
  pub commit : Option (Option ErrorCode)
  pub landed : Bool
  pub rollback : Option ErrorSource
  pub reopened : Result (List Bytes) DbWriteError
  pub registered : Result (List Bytes) DbWriteError

unfoldable pub rollback_after_error :
    Option ErrorSource → ℕ → DbWriteError → Result (Unit {0}) DbWriteError
rollback_after_error none request_id transaction_error = err transaction_error
rollback_after_error (some rollback_error) request_id transaction_error =
    err (rollback_failed request_id transaction_error rollback_error)

module _ {Store : Type 0} where
  -- The COMMIT behind a body that took `before` to `after`.
  unfoldable pub commit_transaction :
      Answers
      → ℕ
      → Store
      → Store
      → Option (Option ErrorCode)
      → Store × Result (Unit {0}) DbWriteError
  unfolding rollback_after_error
  commit_transaction a request_id before after none = (after, ok tt)
  commit_transaction a request_id before after (some code) =
      if is_busy_or_locked code
      then (
        before,
        rollback_after_error a.rollback request_id (map_sqlite_error request_id "commit" code),
      )
      else if commit_outcome_may_be_unknown code
      then (
        (if a.landed then after else before),
        err (commit_outcome_unknown request_id (some (sqlite code))),
      )
      else (
        before,
        rollback_after_error a.rollback request_id (map_sqlite_error request_id "commit" code),
      )

  unfoldable pub after_body :
      Answers
      → ℕ
      → Store
      → Option DbWriteError
      → Result Store DbWriteError
      → Store × Result (Unit {0}) DbWriteError
  unfolding commit_transaction rollback_after_error
  after_body a request_id before (some error) body =
      (before, rollback_after_error a.rollback request_id error)
  after_body a request_id before none (err error) =
      (before, rollback_after_error a.rollback request_id error)
  after_body a request_id before none (ok after) =
      commit_transaction a request_id before after a.commit

  unfoldable pub execute_transaction :
      Answers → ℕ → Result Store DbWriteError → Store → Store × Result (Unit {0}) DbWriteError
  unfolding after_body
  execute_transaction a request_id body before = elim a.begin [
    | some code ↦ (before, err (map_sqlite_error request_id "begin" code))
    | none ↦ after_body a request_id before a.statement body
  ]

-- The state of the writer; `connection` is `Some` or `None`.
pub record Writer (Store : Type 0) : Type 0 where
  pub store : Store
  pub connected : Bool
  pub tables : List Bytes

-- The delays are those of `thread::sleep`, in milliseconds.
pub record Processed (Store : Type 0) : Type 0 where
  pub writer : Writer Store
  pub result : Result (Unit {0}) DbWriteError
  pub delays : List ℕ

-- What the arms of the loop do with an error.
pub data Retry : Type 0 where
  give_up again reopen_again : Retry

unfoldable pub retry_of : DbWriteError → Retry
retry_of (busy _ _ _) = again
retry_of (commit_outcome_unknown _ _) = reopen_again
retry_of (transaction id stage source) =
    if is_recoverable_transaction (transaction id stage source) then reopen_again else give_up
retry_of _ = give_up

module _ {Store : Type 0} where
  unfoldable pub stop : Writer Store → Result (Unit {0}) DbWriteError → Processed Store
  stop w result = record { writer = w; result = result; delays = [] }

  unfoldable pub sleep_before : ℕ → Processed Store → Processed Store
  sleep_before delay p = record p { delays = delay ∷ p.delays }

  -- `reopen_writer_connection(connection, path, tables)?` and what stands behind it
  unfoldable pub reopen_and :
      Result (List Bytes) DbWriteError
      → Writer Store
      → (Writer Store → Processed Store)
      → Processed Store
  unfolding stop
  reopen_and (err error) w next = stop (record w { connected = false }) (err error)
  reopen_and (ok tables) w next = next (record w { connected = true; tables = tables })

  -- `if matches!(batch, RegisterDevices(_)) { *tables = validated_device_tables(connection)?; }`
  unfoldable pub finished_commit :
      Bool → Result (List Bytes) DbWriteError → Writer Store → Processed Store
  unfolding stop
  finished_commit false registered w = stop w (ok tt)
  finished_commit true (err error) w = stop w (err error)
  finished_commit true (ok tables) w = stop (record w { tables = tables }) (ok tt)

  -- An error of an attempt, with the attempts that are left behind it, if there are any.
  unfoldable pub failed :
      Answers
      → Option (Writer Store → Processed Store)
      → DbWriteError
      → Retry
      → Writer Store
      → Processed Store
  unfolding stop reopen_and
  failed a next error give_up w = stop w (err error)
  failed a none error again w = stop w (err error)
  failed a none error reopen_again w = stop w (err error)
  failed a (some next) error again w = next w
  failed a (some next) error reopen_again w = reopen_and a.reopened w next

  unfoldable pub attempted :
      Answers
      → Bool
      → Option (Writer Store → Processed Store)
      → Writer Store
      → Result (Unit {0}) DbWriteError
      → Processed Store
  unfolding finished_commit failed retry_of
  attempted a registers next w (ok _) = finished_commit registers a.registered w
  attempted a registers next w (err error) = failed a next error (retry_of error) w

  -- What a request is: its id, whether it registers devices, and the body of its transaction. The
  -- answers are numbered by the attempts that remain behind them.
  module _ (request_id : ℕ) (registers : Bool)
      (write : List Bytes → Store → Result Store DbWriteError) (answers : ℕ → Answers) where
    unfoldable pub attempt :
        ℕ → Option (Writer Store → Processed Store) → Writer Store → Processed Store
    unfolding stop attempted execute_transaction
    attempt n next w =
        if w.connected
        then (let (store, result) =
              execute_transaction (answers n) request_id (write w.tables w.store) w.store in
            attempted (answers n) registers next (record w { store = store }) result)
        else stop w (err queue_closed)

    -- The loop with `attempts_remaining` one more than the number.
    unfoldable pub attempts : ℕ → ℕ → Writer Store → Processed Store
    unfolding attempt sleep_before
    attempts zero delay w = attempt zero none w
    attempts (suc n) delay w =
        let next = attempts n (delay * 2) in
        attempt (suc n) (some (λ w'. sleep_before delay (next w'))) w

    -- `MAX_BATCH_ATTEMPTS` is 3 and `INITIAL_RETRY_DELAY` 50 ms.
    unfoldable pub process_request : Result (Unit {0}) DbWriteError → Writer Store → Processed Store
    unfolding attempts stop
    process_request (err error) w = stop w (err error)
    process_request (ok _) w = attempts 2 50 w
