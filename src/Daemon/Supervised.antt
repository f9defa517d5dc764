-- ===== src/Daemon/Supervised.antt =====
-- When the daemon of src/main.rs ends, and with what result.
use nvme_disk_mon.Common.{
  ◌≡◌, refl, ◌∙◌, ap, sym, subst, ◌⊎◌, inl, inr, ◌↔◌, Bool, true, false, ◌||◌, List, [], ◌∷◌,
  Option, none, some, Result, ok, err, All, any, arith, Option-cases,
}
use nvme_disk_mon.Daemon.{
  Failure, TaskExit, into_failure, nothing, Poll, Decision, clean, failed, decide_failure,
  decide_exit, decide_closed, decide_received, decide_finished, decide_task, decide_rest,
  decide_poll, supervise_long_tasks, retain_first_failure, retain, retain_late, result_of, Remains,
  shut_down, end_of_daemon, supervise_and_stop,
}

-- Nothing has come in, nothing has finished, and no stop is requested.
pub record IsIdle (poll : Poll) : Type 0 where
  pub nothing_first : poll.first ≡ nothing
  pub running : poll.stop ≡ false
  pub unfinished : poll.finished_core_task ≡ none
  pub nothing_last : poll.last ≡ nothing

-- The flag to stop was seen set.
abbrev pub sees_stop : Poll → Bool
sees_stop poll = poll.stop_at_first || (poll.stop || (poll.stop_at_second || poll.stop_at_last))

-- The first failure of a list
abbrev pub first_failure : List (Option Failure) → Option Failure
first_failure [] = none
first_failure (some error ∷ failures) = some error
first_failure (none ∷ failures) = first_failure failures

-- The failures of exits that came in late
abbrev pub late_failures : List TaskExit → List (Option Failure) → List (Option Failure)
late_failures [] failures = failures
late_failures (e ∷ exits) failures = into_failure e true ∷ late_failures exits failures

poll-IsIdle : (poll : Poll) → (decide_poll poll ≡ none) ↔ IsIdle poll
unfolding decide_poll decide_rest decide_task decide_received
poll-IsIdle poll = ground arith

poll-clean :
    (poll : Poll) (decision : Decision)
    → decide_poll poll ≡ some decision
    → decision.failure ≡ none
    → sees_stop poll ≡ true
unfolding decide_poll decide_rest decide_task decide_received decide_exit decide_closed
    decide_finished decide_failure into_failure clean failed
poll-clean poll decision e f = ground arith

supervise-IsIdle : (polls : List Poll) → (supervise_long_tasks polls ≡ none) ↔ All IsIdle polls
unfolding supervise_long_tasks
supervise-IsIdle [] = ground arith
supervise-IsIdle (poll ∷ polls) =
    let (there, back) = supervise-IsIdle polls in
    let (idle, waits) = poll-IsIdle poll in
    (λ h. ground (arith, there, idle), λ h. ground (arith, back h.1, waits h.0))

supervise-clean :
    (polls : List Poll) (decision : Decision)
    → supervise_long_tasks polls ≡ some decision
    → decision.failure ≡ none
    → any sees_stop polls ≡ true
unfolding supervise_long_tasks
supervise-clean [] decision e f = ground arith
supervise-clean (poll ∷ polls) decision e f = elim (Option-cases (decide_poll poll)) [
  | inl n ↦ ground (arith, supervise-clean polls decision)
  | inr (d, n) ↦ ground (arith, poll-clean poll d n)
]

retain-first :
    (a b : Option Failure) (failures : List (Option Failure))
    → first_failure (retain a b ∷ failures) ≡ first_failure (a ∷ b ∷ failures)
unfolding retain retain_first_failure
retain-first a b failures = ground arith

retain_late-first :
    (a : Option Failure) (exits : List TaskExit) (failures : List (Option Failure))
    → first_failure (retain_late a exits ∷ failures)
      ≡ first_failure (a ∷ late_failures exits failures)
unfolding retain_late
retain_late-first a [] failures = refl
retain_late-first a (e ∷ exits) failures =
    retain_late-first (retain a (into_failure e true)) exits failures
    ∙ retain-first a (into_failure e true) (late_failures exits failures)

-- The failures of the shutdown, in the order in which they count
abbrev pub shutdown_failures : Remains → List (Option Failure)
shutdown_failures r = late_failures r.late_exits (r.writer_join ∷ r.monitor_join ∷ r.database ∷ [])

first-alone : (a : Option Failure) → first_failure (a ∷ []) ≡ a
first-alone none = refl
first-alone (some error) = refl

shut_down-first :
    (a : Option Failure) (r : Remains)
    → shut_down a r ≡ result_of (first_failure (a ∷ shutdown_failures r))
unfolding shut_down
shut_down-first a r =
    let late = retain_late a r.late_exits in
    let joined = retain late r.writer_join in
    let both = retain joined r.monitor_join in
    ap result_of (
      sym (first-alone (retain both r.database))
      ∙ retain-first both r.database []
      ∙ retain-first joined r.monitor_join (r.database ∷ [])
      ∙ retain-first late r.writer_join (r.monitor_join ∷ r.database ∷ [])
      ∙ retain_late-first a r.late_exits (r.writer_join ∷ r.monitor_join ∷ r.database ∷ []))

poll-failed :
    (poll : Poll) (decision : Decision) (error : Failure)
    → decide_poll poll ≡ some decision
    → decision.failure ≡ some error
    → decision ≡ failed error
unfolding decide_poll decide_rest decide_task decide_received decide_exit decide_closed
    decide_finished decide_failure into_failure clean failed
poll-failed poll decision error e f = ground arith

supervise-failed :
    (polls : List Poll) (decision : Decision) (error : Failure)
    → supervise_long_tasks polls ≡ some decision
    → decision.failure ≡ some error
    → supervise_long_tasks polls ≡ some (failed error)
unfolding supervise_long_tasks
supervise-failed [] decision error e f = ground arith
supervise-failed (poll ∷ polls) decision error e f = elim (Option-cases (decide_poll poll)) [
  | inl n ↦ ground (arith, supervise-failed polls decision error)
  | inr (d, n) ↦ ground (arith, poll-failed poll d error n)
]

-- Why the daemon is where it is behind these iterations
abbrev pub IsExplained : List Poll → Remains → Option (Result (Unit {0}) Failure) → Type 0
IsExplained polls remains none = All IsIdle polls
IsExplained polls remains (some (ok _)) =
    (any sees_stop polls ≡ true) × (first_failure (shutdown_failures remains) ≡ none)
IsExplained polls remains (some (err error)) =
    (supervise_long_tasks polls ≡ some (failed error))
    ⊎ ((any sees_stop polls ≡ true) × (first_failure (shutdown_failures remains) ≡ some error))

result-IsExplained :
    (polls : List Poll) (remains : Remains) (decision : Decision) (a : Option Failure)
    → supervise_long_tasks polls ≡ some decision
    → decision.failure ≡ a
    → IsExplained polls remains (some (result_of (first_failure (a ∷ shutdown_failures remains))))
unfolding result_of
result-IsExplained polls remains decision (some error) e f =
    inl (supervise-failed polls decision error e f)
result-IsExplained polls remains decision none e f =
    let stopped = supervise-clean polls decision e f in
    elim (Option-cases (first_failure (shutdown_failures remains))) [
      | inl n ↦ subst (λ a. IsExplained polls remains (some (result_of a))) (sym n) (stopped, n)
      | inr (error, n) ↦
          subst (λ a. IsExplained polls remains (some (result_of a))) (sym n) (inr (stopped, n))
    ]

decision-IsExplained :
    (polls : List Poll) (remains : Remains) (d : Option Decision)
    → supervise_long_tasks polls ≡ d
    → IsExplained polls remains (end_of_daemon remains d)
unfolding end_of_daemon
decision-IsExplained polls remains none e = let (there, back) = supervise-IsIdle polls in there e
decision-IsExplained polls remains (some decision) e =
    subst (λ result. IsExplained polls remains (some result))
      (sym (shut_down-first decision.failure remains))
      (result-IsExplained polls remains decision decision.failure e refl)

-- Where the daemon is behind any iterations of its supervision has a reason: it still runs only
-- when in each iteration nothing came in, nothing had finished and no stop was requested; it ends
-- well only when a stop was seen requested and neither a late exit, a join nor the database left a
-- failure; and it ends with an error only when that is the failure with which the supervision
-- itself requested the stop, or when a stop was seen requested and it is the first failure that
-- the shutdown left.
pub supervise_and_stop-IsExplained :
    (polls : List Poll) (remains : Remains)
    → IsExplained polls remains (supervise_and_stop polls remains)
unfolding supervise_and_stop
supervise_and_stop-IsExplained polls remains =
    decision-IsExplained polls remains (supervise_long_tasks polls) refl
