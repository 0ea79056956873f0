-- ===== src/Queueing/Recovery.antt =====
-- From the report of a failure of the infrastructure to the next claim of the job.
use ci_system.Prelude.{ℕ, suc, ◌+◌, ◌≤◌, ◌≡◌, refl, ◌∙◌, ap, true, false, Text, some, arith, leb}
use ci_system.Prelude.Int.{pos}
use ci_system.Models.{Job, JobAttempt, JobStatus}
use ci_system.Runtime.{Runtime, config, get}
use ci_system.World.{World}
use ci_system.DelayedEntry.{delayed_entry}
use ci_system.Lease.{
  Report, is_zero, new_attempt, backoff_seconds, complete_attempt, complete_valid, finish_attempt,
  maybe_retry,
}
use ci_system.Reaper.{promote_delayed_jobs}
use ci_system.Consistency.{Consistent}
use ci_system.Reporting.Acceptance.{HoldsLease, complete-of-HoldsLease}
use ci_system.Reporting.Outcome.{
  retry_due, job_verdict, job_status_of, report_verdict, retry_scheduled,
}
use ci_system.Queueing.Promotion.{IsMember, IsEntry, zadd-IsEntry, due_retries_promoted}

module _ ⦃rt : Runtime⦄ where
  -- When the next attempt is due.
  abbrev pub ready_time : World → ℕ → ℕ
  ready_time w number = rt.host.clock (suc (suc (suc w.readings))) + backoff_seconds number

  delayed_complete :
      (k t : Text) (r : Report) (w : World) (a : JobAttempt) (j : Job) (e : ℕ)
      → HoldsLease w k t a e
      → get w.jobs a.job_id ≡ some j
      → retry_due config.max_job_attempts a.attempt_number r ≡ true
      → (complete_attempt k t r w).1.delayed
        ≡ rt.sorted_set.zadd w.delayed
            (delayed_entry a.job_id j.priority)
            (pos (ready_time w a.attempt_number))
  unfolding complete_valid finish_attempt maybe_retry
  delayed_complete k t r w a j e h ej due =
      rw (complete-of-HoldsLease k t r w a e h)
        (rw (complete_valid, ej) (rw (finish_attempt, nz, np) (rw (maybe_retry, left) refl)))
    where
      nz : is_zero r.exit_code ≡ false
      nz = ground arith

      np : r.is_permanent_failure ≡ false
      np = ground arith

      left : leb config.max_job_attempts a.attempt_number ≡ false
      left = ground arith

  retried_verdict :
      (budget number : ℕ) (r : Report)
      → retry_due budget number r ≡ true
      → job_verdict budget number r ≡ JobStatus.queued
  retried_verdict budget number r due = ground arith

  -- After a report that asks for another try, once the backoff is over by the clock, a promotion
  -- puts the job back into the queue, whatever else the queue holds, so long as the delayed set has
  -- only entries of retries: the job is queued, and its next attempt is stored under a number that
  -- is one more.
  pub failed_job_comes_back :
      (k t : Text) (r : Report) (w : World) (a : JobAttempt) (j : Job) (e m : ℕ)
      → Consistent w
      → HoldsLease w k t a e
      → get w.jobs a.job_id ≡ some j
      → retry_due config.max_job_attempts a.attempt_number r ≡ true
      → ((i : Text) → IsMember w.delayed i → IsEntry i)
      → ready_time w a.attempt_number ≤ rt.host.clock m
      → let w' = (complete_attempt k t r w).1 in
        let v = (promote_delayed_jobs (record w' { readings = m })).1 in
        IsMember v.queue a.job_id
        × (get v.attempts (rt.host.uuid (suc (suc w.readings)))
            ≡ some (
                new_attempt a.job_id (suc a.attempt_number) (some (ready_time w a.attempt_number))))
        × (job_status_of (get v.jobs a.job_id) ≡ some JobStatus.queued)
  failed_job_comes_back k t r w a j e m c h ej due entries late =
      let w' = (complete_attempt k t r w).1 in
      let u : World = record w' { readings = m } in
      let entry = delayed_entry a.job_id j.priority in
      let ready_at = ready_time w a.attempt_number in
      let delayed = delayed_complete k t r w a j e h ej due in
      let (next, waits) = retry_scheduled k t r w a j e c h ej due in
      let (q, s, verdict) = report_verdict k t r w a e c h in
      let all : (i : Text) → IsMember w'.delayed i → IsEntry i =
        rw delayed (zadd-IsEntry w.delayed a.job_id j.priority (pos ready_at) entries) in
      let (count, jobs, attempts, queued, out) =
        due_retries_promoted a.job_id j.priority ready_at u all waits late in
      let status =
        verdict ∙ ap some (retried_verdict config.max_job_attempts a.attempt_number r due) in
      (queued, rw attempts next, rw jobs status)
