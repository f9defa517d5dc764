-- ===== src/Database/Process/Atomic.antt =====
-- A request changes the rows as a whole or not at all, and an acknowledged one has changed them.
use nvme_disk_mon.Common.{
  either, ℕ, zero, suc, ◌*◌, ◌≡◌, ◌⊎◌, refl, ap, ◌∙◌, Bool, true, false, List, Option, none, some,
  Bytes, Result, ok, err, inl, inr, arith,
}
use nvme_disk_mon.Database.Errors.{
  DbWriteError, ErrorCode, is_busy_or_locked, commit_outcome_may_be_unknown, map_sqlite_error,
}
use nvme_disk_mon.Database.Process.{
  Answers, Writer, Processed, Retry, give_up, again, reopen_again, rollback_after_error,
  commit_transaction, after_body, execute_transaction, stop, sleep_before, reopen_and,
  finished_commit, failed, attempted, retry_of, attempt, attempts, process_request,
}

err-ok : {A : Type 0} {a : A} {e : DbWriteError} → err e ≡ ok a → ⊥
err-ok h = ground arith

-- The contract of the body of a transaction: where it succeeds, the rows are those of an effect that
-- does not depend on the tables and that is the same when it is applied twice.
pub record Replayable {Store : Type 0} (write : List Bytes → Store → Result Store DbWriteError)
    : Type 0 where
  pub effect : Store → Store
  pub write-effect :
      (tables : List Bytes) (before after : Store)
      → write tables before ≡ ok after
      → after ≡ effect before
  pub effect-effect : (store : Store) → effect (effect store) ≡ effect store

module _ {Store : Type 0} (write : List Bytes → Store → Result Store DbWriteError)
    (laws : Replayable write) (start : Store) where
  -- Untouched, or as after the effect.
  abbrev Between : Store → Type 0
  Between store = (store ≡ start) ⊎ (store ≡ laws.effect start)

  abbrev IsAtomic : Store × Result (Unit {0}) DbWriteError → Type 0
  IsAtomic (store, result) = Between store × (result ≡ ok tt → store ≡ laws.effect start)

  abbrev IsAtomicProcessed : Processed Store → Type 0
  IsAtomicProcessed p = IsAtomic (p.writer.store, p.result)

  effect-Between : (store : Store) → Between store → laws.effect store ≡ laws.effect start
  effect-Between store (inl e) = ap laws.effect e
  effect-Between store (inr e) = ap laws.effect e ∙ laws.effect-effect start

  rolled_back :
      (a : Answers) (id : ℕ) (error : DbWriteError) (store : Store)
      → Between store
      → IsAtomic (store, rollback_after_error a.rollback id error)
  unfolding rollback_after_error
  rolled_back a id error store b = ground (arith, b)

  commit-IsAtomic :
      (a : Answers) (id : ℕ) (before after : Store) (code : Option (Option ErrorCode))
      → Between before
      → after ≡ laws.effect before
      → IsAtomic (commit_transaction a id before after code)
  unfolding commit_transaction
  commit-IsAtomic a id before after none b e =
      let done = e ∙ effect-Between before b in (inr done, λ _. done)
  commit-IsAtomic a id before after (some code) b e =
      either IsAtomic (is_busy_or_locked code) (rolled_back a id _ before b) (
        either IsAtomic (commit_outcome_may_be_unknown code)
          (either Between a.landed (inr (e ∙ effect-Between before b)) b, λ h. absurd (err-ok h))
          (rolled_back a id _ before b))

  execute-IsAtomic :
      (a : Answers) (id : ℕ) (tables : List Bytes) (before : Store)
      → Between before
      → IsAtomic (execute_transaction a id (write tables before) before)
  unfolding execute_transaction after_body
  execute-IsAtomic a id tables before b = go a.begin a.statement (write tables before) refl
    where
      go :
          (begin : Option (Option ErrorCode)) (statement : Option DbWriteError)
          (body : Result Store DbWriteError)
          → write tables before ≡ body
          → IsAtomic (elim begin [
            | some code ↦ (before, err (map_sqlite_error id "begin" code))
            | none ↦ after_body a id before statement body
          ])
      go (some code) statement body e = (b, λ h. absurd (err-ok h))
      go none (some error) body e = rolled_back a id error before b
      go none none (err error) e = rolled_back a id error before b
      go none none (ok after) e =
          commit-IsAtomic a id before after a.commit b (laws.write-effect tables before after e)

  -- The rest of the loop keeps what was reached.
  abbrev Continues : Option (Writer Store → Processed Store) → Type 0
  Continues none = Unit
  Continues (some next) = (w : Writer Store) → Between w.store → IsAtomicProcessed (next w)

  failed-IsAtomic :
      (a : Answers) (next : Option (Writer Store → Processed Store)) (error : DbWriteError)
      (retry : Retry) (w : Writer Store)
      → Continues next
      → Between w.store
      → IsAtomicProcessed (failed a next error retry w)
  unfolding failed stop reopen_and
  failed-IsAtomic a next error give_up w c b = (b, λ h. absurd (err-ok h))
  failed-IsAtomic a none error again w c b = (b, λ h. absurd (err-ok h))
  failed-IsAtomic a none error reopen_again w c b = (b, λ h. absurd (err-ok h))
  failed-IsAtomic a (some next) error again w c b = c w b
  failed-IsAtomic a (some next) error reopen_again w c b = go a.reopened
    where
      go :
          (reopened : Result (List Bytes) DbWriteError)
          → IsAtomicProcessed (reopen_and reopened w next)
      go (err e) = (b, λ h. absurd (err-ok h))
      go (ok tables) = c (record w { connected = true; tables = tables }) b

  finished_commit-IsAtomic :
      (registers : Bool) (registered : Result (List Bytes) DbWriteError) (w : Writer Store)
      → w.store ≡ laws.effect start
      → IsAtomicProcessed (finished_commit registers registered w)
  unfolding finished_commit stop
  finished_commit-IsAtomic false registered w e = (inr e, λ _. e)
  finished_commit-IsAtomic true (err error) w e = (inr e, λ _. e)
  finished_commit-IsAtomic true (ok tables) w e = (inr e, λ _. e)

  attempted-IsAtomic :
      (a : Answers) (registers : Bool) (next : Option (Writer Store → Processed Store))
      (w : Writer Store) (result : Result (Unit {0}) DbWriteError)
      → Continues next
      → IsAtomic (w.store, result)
      → IsAtomicProcessed (attempted a registers next w result)
  unfolding attempted
  attempted-IsAtomic a registers next w (ok _) c h =
      finished_commit-IsAtomic registers a.registered w (h.1 refl)
  attempted-IsAtomic a registers next w (err error) c h =
      failed-IsAtomic a next error (retry_of error) w c h.0

  module _ (id : ℕ) (registers : Bool) (answers : ℕ → Answers) where
    attempt-IsAtomic :
        (n : ℕ) (next : Option (Writer Store → Processed Store)) (w : Writer Store)
        → Continues next
        → Between w.store
        → IsAtomicProcessed (attempt id registers write answers n next w)
    unfolding attempt stop
    attempt-IsAtomic n next w c b =
        either IsAtomicProcessed w.connected
          (attempted-IsAtomic (answers n) registers next _ _ c
            (execute-IsAtomic (answers n) id w.tables w.store b))
          (b, λ h. absurd (err-ok h))

    attempts-IsAtomic :
        (n delay : ℕ) (w : Writer Store)
        → Between w.store
        → IsAtomicProcessed (attempts id registers write answers n delay w)
    unfolding attempts sleep_before
    attempts-IsAtomic zero delay w b = attempt-IsAtomic 0 none w tt b
    attempts-IsAtomic (suc n) delay w b =
        let ih = attempts-IsAtomic n (delay * 2) in
        attempt-IsAtomic (suc n)
          (some (λ w'. sleep_before delay (attempts id registers write answers n (delay * 2) w'))) w
          ih b

-- For a body that may be repeated, and whatever SQLite answers to each of the attempts, with a
-- COMMIT of unknown outcome that took effect or not: the rows are untouched or those of the
-- effect, applied once, and a valid request that is answered with success has left those of the
-- effect.
pub process_request-IsAtomic :
    {Store : Type 0} (write : List Bytes → Store → Result Store DbWriteError)
    (laws : Replayable write) (request_id : ℕ) (registers : Bool) (answers : ℕ → Answers)
    (w : Writer Store)
    → (let p = process_request request_id registers write answers (ok tt) w in
        ((p.writer.store ≡ w.store) ⊎ (p.writer.store ≡ laws.effect w.store))
        × (p.result ≡ ok tt → p.writer.store ≡ laws.effect w.store))
unfolding process_request
process_request-IsAtomic write laws request_id registers answers w =
    attempts-IsAtomic write laws w.store request_id registers answers 2 50 w (inl refl)
