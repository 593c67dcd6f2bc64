-- ===== src/Monitor/Breaker/Laws.antt =====
-- When the circuit opens and closes, and that a due check is run and not repeated.
use p4sync_git.Prelude.{
  ℕ, ◌+◌, ◌<◌, ◌≡◌, ◌≢◌, refl, true, false, Option, none, some, arith, if◌then◌else◌, ap, ◌∙◌,
}
use p4sync_git.Exec.{Result, ok, err}
use p4sync_git.Monitor.Breaker.{
  CheckSchedule, daily_sample, weekly_full, monthly_random, IntegrityResult, IntegrityChecker, day,
  check_due_schedule, mark_checked, closed, open_circuit, IntegrityCircuitBreaker, allow_sync, trip,
  reset, settle, settle_checked, run_scheduled_check, run_check, finish_check, run_due,
  with_schedule,
}

-- Synchronisation is blocked exactly while a failure is on record.
pub record IsConsistent (b : IntegrityCircuitBreaker) : Type 0 where
  pub closed_clean : b.state ≡ closed → b.last_failure_result ≡ none
  pub open_failed :
      b.state ≡ open_circuit
      → (r : IntegrityResult) × (b.last_failure_result ≡ some r) × (r.passed ≡ false)

-- nothing that a check decides
abbrev pub Unsettled : IntegrityCircuitBreaker → IntegrityCircuitBreaker → Type 0
Unsettled b b' =
    (b'.state ≡ b.state)
    × (b'.last_failure_result ≡ b.last_failure_result)
    × (b'.notices ≡ b.notices)

-- what a check of a schedule that is due leaves, by what its verification finds
abbrev pub Checked :
    CheckSchedule
    → ℕ
    → IntegrityCircuitBreaker
    → Result IntegrityResult
    → Result (Option IntegrityResult) × IntegrityCircuitBreaker
    → Type 0
Checked s now b (ok found) (r, b') =
    (r ≡ ok (some (record found { schedule = some s })))
    × (b'.checker.last_daily ≡ now)
    × (found.passed ≡ true → (allow_sync b' ≡ true) × (b'.notices ≡ b.notices))
    × (found.passed ≡ false
        → (allow_sync b' ≡ false)
          × (b'.last_failure_result ≡ some (record found { schedule = some s }))
          × (b'.notices ≡ (if b.has_notifier then b.notices + 1 else b.notices)))
Checked s now b (err e) (r, b') = (r ≡ err e) × (b'.checker ≡ b.checker) × Unsettled b b'

-- what a call of `run_check` leaves, by the schedule that is due
abbrev pub Settled :
    (CheckSchedule → Result IntegrityResult)
    → ℕ
    → IntegrityCircuitBreaker
    → Option CheckSchedule
    → Result (Option IntegrityResult) × IntegrityCircuitBreaker
    → Type 0
Settled verify now b none (r, b') = (r ≡ ok none) × (b'.checker ≡ b.checker) × Unsettled b b'
Settled verify now b (some s) p = Checked s now b (verify s) p

settle_checked-checker :
    (now : ℕ) (r : Result (Option IntegrityResult)) (b : IntegrityCircuitBreaker)
    → (settle_checked now r b).1.checker ≡ b.checker
unfolding settle_checked settle trip reset
settle_checked-checker now (ok none) b = refl
settle_checked-checker now (ok (some r)) b = ground arith
settle_checked-checker now (err e) b = refl

marked_daily :
    (s : CheckSchedule) (now : ℕ) (c : IntegrityChecker) → (mark_checked s now c).last_daily ≡ now
unfolding mark_checked
marked_daily daily_sample now c = refl
marked_daily weekly_full now c = refl
marked_daily monthly_random now c = refl

settle_checked-IsConsistent :
    (now : ℕ) (r : Result (Option IntegrityResult)) (b : IntegrityCircuitBreaker)
    → IsConsistent b
    → IsConsistent (settle_checked now r b).1
unfolding settle_checked settle trip reset
settle_checked-IsConsistent now (ok none) b c = c
settle_checked-IsConsistent now (ok (some r)) b c = record {
  closed_clean = λ h. ground arith;
  open_failed = λ h. (r, ground arith, ground arith);
}
settle_checked-IsConsistent now (err e) b c = c

module _ (verify : CheckSchedule → Result IntegrityResult) where
  due-Checked :
      (s : CheckSchedule) (now : ℕ) (b : IntegrityCircuitBreaker) (v : Result IntegrityResult)
      → let (r, c) = finish_check verify s now v b.checker in
        Checked s now b v (settle_checked now r (record b { checker = c }))
  unfolding settle_checked settle trip reset allow_sync
  due-Checked s now b (ok found) = (
    refl,
    ap (λ (c : IntegrityChecker). c.last_daily)
          (settle_checked-checker now (ok (some (with_schedule verify s found)))
            (record b { checker = mark_checked s now b.checker }))
        ∙ marked_daily s now b.checker,
    λ h. ground (arith, h),
    λ h. ground (arith, h),
  )
  due-Checked s now b (err e) = (refl, refl, (refl, refl, refl))

  run_due-Settled :
      (now : ℕ) (b : IntegrityCircuitBreaker) (o : Option CheckSchedule)
      → let (r, c) = run_due verify now b.checker o in
        Settled verify now b o (settle_checked now r (record b { checker = c }))
  unfolding settle_checked
  run_due-Settled now b none = (refl, refl, (refl, refl, refl))
  run_due-Settled now b (some s) = due-Checked s now b (verify s)

  -- Without a schedule that is due nothing changes. One that is due is verified: what is found is
  -- returned under the name of the schedule; if it passed, synchronisation is allowed and no notice is
  -- asked for; if it failed, synchronisation is blocked, the result is kept, and a notifier is asked
  -- for one notice. A verification that raises changes nothing.
  pub run_check-Settled :
      (now : ℕ) (b : IntegrityCircuitBreaker)
      → Settled verify now b (check_due_schedule now b.checker) (run_check verify now b)
  unfolding run_check run_scheduled_check
  run_check-Settled now b = run_due-Settled now b (check_due_schedule now b.checker)

  -- A check keeps it so that a failure is on record exactly while the circuit is open.
  pub run_check-IsConsistent :
      (now : ℕ) (b : IntegrityCircuitBreaker)
      → IsConsistent b
      → IsConsistent (run_check verify now b).1
  unfolding run_check
  run_check-IsConsistent now b c =
      let (r, k) = run_scheduled_check verify now b.checker in
      settle_checked-IsConsistent now r (record b { checker = k })
        (record { closed_clean = c.closed_clean; open_failed = c.open_failed })

-- A check of one schedule is not repeated within the day in which it was made.
pub mark_checked_due :
    (s : CheckSchedule) (now later : ℕ) (c : IntegrityChecker)
    → later < now + day
    → check_due_schedule later (mark_checked s now c) ≢ some s
unfolding check_due_schedule mark_checked
mark_checked_due daily_sample now later c l = ground arith
mark_checked_due weekly_full now later c l = ground arith
mark_checked_due monthly_random now later c l = ground arith
