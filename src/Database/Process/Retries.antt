-- ===== src/Database/Process/Retries.antt =====
-- The loop of `process_request` of src/database/task.rs waits for a bounded time.
use nvme_disk_mon.Common.{
  ℕ, ◌+◌, ◌*◌, ◌≤◌, Bool, true, false, List, [], ◌∷◌, Option, none, some, Bytes, Result, ok, err,
  arith, if◌then◌else◌,
}
use nvme_disk_mon.Database.Errors.{DbWriteError, queue_closed}
use nvme_disk_mon.Database.Process.{
  Answers, Writer, Processed, Retry, give_up, again, reopen_again, execute_transaction, stop,
  sleep_before, reopen_and, finished_commit, failed, attempted, retry_of, attempt, attempts,
  process_request,
}

abbrev pub total : List ℕ → ℕ
total [] = 0
total (delay ∷ delays) = delay + total delays

module _ {Store : Type 0} where
  abbrev Waits : Option (Writer Store → Processed Store) → ℕ → Type 0
  Waits none bound = Unit
  Waits (some next) bound = (w : Writer Store) → total (next w).delays ≤ bound

  failed-delays :
      (a : Answers) (next : Option (Writer Store → Processed Store)) (error : DbWriteError)
      (retry : Retry) (w : Writer Store) (bound : ℕ)
      → Waits next bound
      → total (failed a next error retry w).delays ≤ bound
  unfolding failed stop reopen_and
  failed-delays a next error give_up w bound h = omega arith
  failed-delays a none error again w bound h = omega arith
  failed-delays a none error reopen_again w bound h = omega arith
  failed-delays a (some next) error again w bound h = h w
  failed-delays a (some next) error reopen_again w bound h = go a.reopened
    where
      go :
          (reopened : Result (List Bytes) DbWriteError)
          → total (reopen_and reopened w next).delays ≤ bound
      go (err e) = omega arith
      go (ok tables) = h (record w { connected = true; tables = tables })

  attempted-delays :
      (a : Answers) (registers : Bool) (next : Option (Writer Store → Processed Store))
      (w : Writer Store) (result : Result (Unit {0}) DbWriteError) (bound : ℕ)
      → Waits next bound
      → total (attempted a registers next w result).delays ≤ bound
  unfolding attempted finished_commit stop
  attempted-delays a false next w (ok _) bound h = omega arith
  attempted-delays a true next w (ok _) bound h = go a.registered
    where
      go :
          (registered : Result (List Bytes) DbWriteError)
          → total (finished_commit true registered w).delays ≤ bound
      go (err e) = omega arith
      go (ok tables) = omega arith
  attempted-delays a registers next w (err error) bound h =
      failed-delays a next error (retry_of error) w bound h

  module _ (write : List Bytes → Store → Result Store DbWriteError) (id : ℕ) (registers : Bool)
      (answers : ℕ → Answers) where
    attempt-delays :
        (n : ℕ) (next : Option (Writer Store → Processed Store)) (w : Writer Store) (bound : ℕ)
        → Waits next bound
        → total (attempt id registers write answers n next w).delays ≤ bound
    unfolding attempt stop
    attempt-delays n next w bound h = go w.connected
      where
        go :
            (connected : Bool)
            → total
                (if connected
                  then attempted
                      (answers n)
                      registers
                      next
                      (record w {
                        store =
                            (execute_transaction (answers n) id (write w.tables w.store) w.store).0;
                      })
                      (execute_transaction (answers n) id (write w.tables w.store) w.store).1
                  else stop w (err queue_closed)).delays
              ≤ bound
        go true = attempted-delays (answers n) registers next _ _ bound h
        go false = omega arith

    last :
        (delay : ℕ) (w : Writer Store)
        → total (attempts id registers write answers 0 delay w).delays ≤ 0
    unfolding attempts
    last delay w = attempt-delays 0 none w 0 tt

    before_last :
        (delay : ℕ) (w : Writer Store)
        → total (attempts id registers write answers 1 delay w).delays ≤ delay
    unfolding attempts sleep_before
    before_last delay w =
        attempt-delays 1
          (some (λ w'. sleep_before delay (attempts id registers write answers 0 (delay * 2) w'))) w
          delay (λ w'. omega (arith, last (delay * 2) w'))

    -- A request sleeps for at most 150 ms, however often SQLite is busy or fails.
    pub process_request-delays :
        (valid : Result (Unit {0}) DbWriteError) (w : Writer Store)
        → total (process_request id registers write answers valid w).delays ≤ 150
    unfolding process_request attempts sleep_before stop
    process_request-delays (err e) w = omega arith
    process_request-delays (ok _) w =
        attempt-delays 2
          (some (λ w'. sleep_before 50 (attempts id registers write answers 1 100 w'))) w 150
          (λ w'. omega (arith, before_last 100 w'))
