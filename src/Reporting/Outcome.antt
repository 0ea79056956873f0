-- ===== src/Reporting/Outcome.antt =====
-- What an accepted report does to the attempt, the job and the retry queue.
use ci_system.Prelude.{
  ℕ, suc, ◌+◌, ◌≡◌, ◌≢◌, refl, ap, inl, inr, Bool, true, false, not, ◌&&◌, Text, text_eq_iff,
  text_eq_refl, Option, none, some, arith, Option-cases, Bool-cases, leb, if◌then◌else◌,
}
use ci_system.Prelude.Int.{pos}
use ci_system.Models.{Job, JobAttempt, JobStatus, AttemptStatus}
use ci_system.Runtime.{Runtime, Table, config, get, put, get-put}
use ci_system.World.{World}
use ci_system.DelayedEntry.{delayed_entry}
use ci_system.Lease.{
  Report, is_zero, new_attempt, backoff_seconds, complete_attempt, complete_valid, finish_attempt,
  maybe_retry,
}
use ci_system.Consistency.{Consistent, Consistent-later}
use ci_system.Reporting.Acceptance.{HoldsLease, complete-of-HoldsLease}

-- The documented verdict: a command that failed is final, and only failures of the infrastructure
-- count against the budget.
abbrev pub attempt_verdict : Report → AttemptStatus
attempt_verdict r =
    if is_zero r.exit_code
    then AttemptStatus.succeeded
    else if r.is_permanent_failure
    then AttemptStatus.failed
    else AttemptStatus.infra_error

-- Another try is due: an infrastructure failure, and the budget is not spent.
abbrev pub retry_due : ℕ → ℕ → Report → Bool
retry_due budget number r =
    not (is_zero r.exit_code) && (not r.is_permanent_failure && not (leb budget number))

abbrev pub job_verdict : ℕ → ℕ → Report → JobStatus
job_verdict budget number r =
    if is_zero r.exit_code
    then JobStatus.succeeded
    else if r.is_permanent_failure
    then JobStatus.failed
    else if leb budget number
    then JobStatus.errored
    else JobStatus.queued

abbrev pub status_of : Option JobAttempt → Option AttemptStatus
status_of none = none
status_of (some a) = some a.status

abbrev pub job_status_of : Option Job → Option JobStatus
job_status_of none = none
job_status_of (some j) = some j.status

module _ ⦃rt : Runtime⦄ where
  pub put_self : {R : Type 0} (t : Table R) (k : Text) (x : R) → get (put t k x) k ≡ some x
  put_self t k x = ground (arith, get-put t k k x, text_eq_refl k)

  pub put_other :
      {R : Type 0} (t : Table R) (h k : Text) (x y : R)
      → h ≢ k
      → get (put (put t k x) h y) k ≡ some x
  put_other t h k x y other =
      ground (arith, get-put (put t k x) h k y, get-put t k k x, text_eq_refl k, text_eq_iff h k)

  finish-statuses :
      (k : Text) (a : JobAttempt) (j : Job) (r : Report) (w : World)
      → Consistent w
      → get w.attempts k ≡ some a
      → let (requeued, w') = finish_attempt k a j r w in
        (requeued ≡ retry_due config.max_job_attempts a.attempt_number r)
        × (status_of (get w'.attempts k) ≡ some (attempt_verdict r))
        × (job_status_of (get w'.jobs a.job_id)
            ≡ some (job_verdict config.max_job_attempts a.attempt_number r))
  unfolding finish_attempt
  finish-statuses k a j r w c ea = elim (Bool-cases (is_zero r.exit_code)) [
    | inl z ↦
        rw (finish_attempt, z)
          (
            refl,
            ap status_of (put_self w.attempts k _),
            ap job_status_of (put_self w.jobs a.job_id _),
          )
    | inr nz ↦ elim (Bool-cases r.is_permanent_failure) [
      | inl p ↦
          rw (finish_attempt, nz, p)
            (
              refl,
              ap status_of (put_self w.attempts k _),
              ap job_status_of (put_self w.jobs a.job_id _),
            )
      | inr np ↦ elim (Bool-cases (leb config.max_job_attempts a.attempt_number)) [
        | inl spent ↦
            rw (finish_attempt, nz, np)
              (rw (maybe_retry, spent)
                (
                  refl,
                  ap status_of (put_self w.attempts k _),
                  ap job_status_of (put_self w.jobs a.job_id _),
                ))
        | inr left ↦
            rw (finish_attempt, nz, np)
              (rw (maybe_retry, left)
                (
                  refl,
                  ap status_of (
                      put_other w.attempts (rt.host.uuid (suc w.readings)) k _ _
                        (λ e. ground (arith, c.fresh_attempt (suc w.readings)))),
                  ap job_status_of (put_self w.jobs a.job_id _),
                ))
      ]
    ]
  ]

  -- In a consistent world a report under a lease sets the status of the attempt and of its job to
  -- the verdict, and asks for another try exactly when the failure is one of the infrastructure
  -- and the budget is not spent; a permanent failure is never tried again.
  pub report_verdict :
      (k t : Text) (r : Report) (w : World) (a : JobAttempt) (e : ℕ)
      → Consistent w
      → HoldsLease w k t a e
      → let (answer, w') = complete_attempt k t r w in
        (answer ≡ some (k, retry_due config.max_job_attempts a.attempt_number r))
        × (status_of (get w'.attempts k) ≡ some (attempt_verdict r))
        × (job_status_of (get w'.jobs a.job_id)
            ≡ some (job_verdict config.max_job_attempts a.attempt_number r))
  unfolding complete_valid
  report_verdict k t r w a e c h = elim (Option-cases (get w.jobs a.job_id)) [
    | inl missing ↦ absurd (c.linked k a h.stored missing)
    | inr (j, ej) ↦
        let (q, s, v) =
          finish-statuses k a j r (record w { readings = suc w.readings })
            (Consistent-later (suc w.readings) (omega arith) c) h.stored in
        rw (complete-of-HoldsLease k t r w a e h)
          (rw (complete_valid, ej) (ap (λ b. some (k, b)) q, s, v))
  ]

  -- In a consistent world a report that asks for another try leaves a new attempt with the next
  -- number under a fresh identifier, which waits for a worker, and an entry in the delayed set that
  -- is due after the backoff.
  pub retry_scheduled :
      (k t : Text) (r : Report) (w : World) (a : JobAttempt) (j : Job) (e : ℕ)
      → Consistent w
      → HoldsLease w k t a e
      → get w.jobs a.job_id ≡ some j
      → retry_due config.max_job_attempts a.attempt_number r ≡ true
      → let w' = (complete_attempt k t r w).1 in
        let ready_at =
          rt.host.clock (suc (suc (suc w.readings))) + backoff_seconds a.attempt_number in
        (get w'.attempts (rt.host.uuid (suc (suc w.readings)))
          ≡ some (new_attempt a.job_id (suc a.attempt_number) (some ready_at)))
        × (rt.sorted_set.score w'.delayed (delayed_entry a.job_id j.priority) ≡ some (pos ready_at))
  unfolding complete_valid finish_attempt maybe_retry
  retry_scheduled k t r w a j e c h ej due = rw (complete-of-HoldsLease k t r w a e h) (
      rw (complete_valid, ej)
        (rw (finish_attempt, nz, np)
          (rw (maybe_retry, left)
            (
              put_self _ (rt.host.uuid (suc (suc w.readings))) _,
              ground (
                arith,
                rt.sorted_set.score_zadd w.delayed entry entry (pos ready_at),
                text_eq_refl entry,
              ),
            ))))
    where
      nz : is_zero r.exit_code ≡ false
      nz = ground arith

      np : r.is_permanent_failure ≡ false
      np = ground arith

      left : leb config.max_job_attempts a.attempt_number ≡ false
      left = ground arith

      entry : Text
      entry = delayed_entry a.job_id j.priority

      ready_at : ℕ
      ready_at = rt.host.clock (suc (suc (suc w.readings))) + backoff_seconds a.attempt_number
