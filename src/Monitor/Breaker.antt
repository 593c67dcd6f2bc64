-- ===== src/Monitor/Breaker.antt =====
-- services/circuit_breaker.py, and the schedule of services/integrity_checker.py that drives it. What a
-- verification finds is the parameter `verify`, which may raise.
pub mod Laws
use p4sync_git.Prelude.{
  ℕ, ◌+◌, ◌*◌, Bool, true, false, Option, none, some, List, leb, if◌then◌else◌,
}
use p4sync_git.Text.{Str}
use p4sync_git.Exec.{Result, ok, err}

pub data CheckSchedule : Type 0 where
  daily_sample weekly_full monthly_random : CheckSchedule

pub record IntegrityResult : Type 0 where
  pub passed : Bool
  pub checked_files : ℕ
  pub mismatched_files : List Str
  pub schedule : Option CheckSchedule
  pub total_files : ℕ
  pub strategy : Str

pub record IntegrityChecker : Type 0 where
  pub last_daily : ℕ
  pub last_weekly : ℕ
  pub last_monthly : ℕ

abbrev pub day : ℕ
day = 86400

unfoldable pub check_due_schedule : ℕ → IntegrityChecker → Option CheckSchedule
check_due_schedule now c =
    if leb (c.last_monthly + 30 * day) now
    then some monthly_random
    else if leb (c.last_weekly + 7 * day) now
    then some weekly_full
    else if leb (c.last_daily + day) now
    then some daily_sample
    else none

-- the times that a finished check sets
unfoldable pub mark_checked : CheckSchedule → ℕ → IntegrityChecker → IntegrityChecker
mark_checked daily_sample now c = record c { last_daily = now }
mark_checked weekly_full now c = record c { last_weekly = now; last_daily = now }
mark_checked monthly_random now c = record {
  last_monthly = now;
  last_weekly = now;
  last_daily = now;
}

pub data CircuitState : Type 0 where
  closed open_circuit : CircuitState

-- `notices` counts the calls of `send_integrity_failure`, which a notifier may still suppress.
pub record IntegrityCircuitBreaker : Type 0 where
  pub checker : IntegrityChecker
  pub state : CircuitState
  pub last_failure_result : Option IntegrityResult
  pub opened_at : ℕ
  pub has_notifier : Bool
  pub notices : ℕ

unfoldable pub allow_sync : IntegrityCircuitBreaker → Bool
allow_sync b = elim b.state [ closed ↦ true | open_circuit ↦ false ]

-- `_trip`
unfoldable pub trip : ℕ → IntegrityResult → IntegrityCircuitBreaker → IntegrityCircuitBreaker
trip now result b = record b {
  state = open_circuit;
  last_failure_result = some result;
  opened_at = now;
  notices = if b.has_notifier then b.notices + 1 else b.notices;
}

unfoldable pub reset : IntegrityCircuitBreaker → IntegrityCircuitBreaker
reset b = elim b.state [
  | closed ↦ b
  | open_circuit ↦ record b { state = closed; last_failure_result = none }
]

-- What `run_check` does with the result; a check that passes closes the circuit as `reset` does.
unfoldable pub settle : ℕ → IntegrityResult → IntegrityCircuitBreaker → IntegrityCircuitBreaker
unfolding trip reset
settle now result b = if result.passed then reset b else trip now result b

abbrev pub settle_checked :
    ℕ
    → Result (Option IntegrityResult)
    → IntegrityCircuitBreaker
    → Result (Option IntegrityResult) × IntegrityCircuitBreaker
unfolding settle
settle_checked now (ok none) b = (ok none, b)
settle_checked now (ok (some r)) b = (ok (some r), settle now r b)
settle_checked now (err e) b = (err e, b)

module _ (verify : CheckSchedule → Result IntegrityResult) where
  abbrev pub with_schedule : CheckSchedule → IntegrityResult → IntegrityResult
  with_schedule s r = record r { schedule = some s }

  abbrev pub finish_check :
      CheckSchedule
      → ℕ
      → Result IntegrityResult
      → IntegrityChecker
      → Result (Option IntegrityResult) × IntegrityChecker
  finish_check s now (ok r) c = (ok (some (with_schedule s r)), mark_checked s now c)
  finish_check s now (err e) c = (err e, c)

  abbrev pub run_due :
      ℕ
      → IntegrityChecker
      → Option CheckSchedule
      → Result (Option IntegrityResult) × IntegrityChecker
  run_due now c none = (ok none, c)
  run_due now c (some s) = finish_check s now (verify s) c

  unfoldable pub run_scheduled_check :
      ℕ → IntegrityChecker → Result (Option IntegrityResult) × IntegrityChecker
  unfolding check_due_schedule mark_checked
  run_scheduled_check now c = run_due now c (check_due_schedule now c)

  unfoldable pub run_check :
      ℕ → IntegrityCircuitBreaker → Result (Option IntegrityResult) × IntegrityCircuitBreaker
  unfolding run_scheduled_check
  run_check now b =
      let (r, c) = run_scheduled_check now b.checker in
      settle_checked now r (record b { checker = c })
