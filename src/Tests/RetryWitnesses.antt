-- ===== src/Tests/RetryWitnesses.antt =====
-- The theorems on retries and promotions at concrete inputs.
use ci_system.Prelude.{suc, ◌*◌, ◌≤◌, ◌≡◌, ◌≢◌, refl, ◌∙◌, Text, text_eq_refl, none, some, arith}
use ci_system.Prelude.Int.{pos}
use ci_system.Config.{second}
use ci_system.Models.{JobStatus}
use ci_system.Runtime.{get}
use ci_system.World.{World}
use ci_system.DelayedEntry.{delayed_entry}
use ci_system.Lease.{complete_attempt, new_attempt, backoff_seconds}
use ci_system.Reaper.{promote_delayed_jobs, reap_expired_leases, run_reaper_once}
use ci_system.Consistency.Reachable.{Reach-Consistent}
use ci_system.Reporting.Outcome.{job_status_of}
use ci_system.Queueing.Promotion.{IsMember, IsEntry, zadd-IsEntry, due_retries_promoted}
use ci_system.Queueing.Recovery.{ready_time, failed_job_comes_back}
use ci_system.Queueing.Abandoned.{abandoned_job_retried}
use ci_system.Queueing.Waiting.{Waiting}
use ci_system.Queueing.Steady.{Steady, starts, goes_on}
use ci_system.Queueing.Ticks.{tick_completes}
use ci_system.Tests.Machine.{machine, strokes}
use ci_system.Tests.Scenario.{
  at_claim, at_claim-Reach, at_retry, claimed_attempt, claimed_job, claimed_HoldsLease,
  claimed_delayed, claimed_readings, claimed_stored, late, late-Consistent, retry_delayed, the_job,
  infra_failure,
}

empty-IsEntry : (k : Text) → IsMember machine.sorted_set.empty k → IsEntry k
empty-IsEntry k h = absurd (h (machine.sorted_set.score_empty k))

-- The world of a retry, a minute and a half after the start.
abbrev later : World
later = record at_retry { readings = 90 }

waiting :
    machine.sorted_set.score later.delayed (delayed_entry (strokes 4) (pos 0))
    ≡ some (pos (15 * second))
waiting =
    let entry = delayed_entry (strokes 4) (pos 0) in
    rw retry_delayed (
      machine.sorted_set.score_zadd machine.sorted_set.empty entry entry (pos (15 * second))
      ∙ rw (text_eq_refl entry) refl)

due_retries_promoted_example :
    let (count, w') = promote_delayed_jobs later in
    (count ≢ none)
    × (w'.jobs ≡ later.jobs)
    × (w'.attempts ≡ later.attempts)
    × IsMember w'.queue (strokes 4)
    × (machine.sorted_set.score w'.delayed (delayed_entry (strokes 4) (pos 0)) ≡ none)
due_retries_promoted_example =
    due_retries_promoted (strokes 4) (pos 0) (15 * second) later
      (rw retry_delayed (
        zadd-IsEntry machine.sorted_set.empty (strokes 4) (pos 0) (pos (15 * second))
          empty-IsEntry))
      waiting (omega arith)

due : ready_time at_claim 1 ≤ machine.host.clock 90
unfolding backoff_seconds
due = rw claimed_readings (omega arith)

failed_job_comes_back_example :
    let w' = (complete_attempt (strokes 5) (strokes 7) infra_failure at_claim).1 in
    let v = (promote_delayed_jobs (record w' { readings = 90 })).1 in
    IsMember v.queue (strokes 4)
    × (get v.attempts (machine.host.uuid (suc (suc at_claim.readings)))
        ≡ some (new_attempt (strokes 4) 2 (some (ready_time at_claim 1))))
    × (job_status_of (get v.jobs (strokes 4)) ≡ some JobStatus.queued)
failed_job_comes_back_example =
    failed_job_comes_back (strokes 5) (strokes 7) infra_failure at_claim claimed_attempt
      (the_job JobStatus.running) (68 * second) 90 (Reach-Consistent at_claim-Reach)
      claimed_HoldsLease claimed_job refl (rw claimed_delayed empty-IsEntry) due

abandoned_job_retried_example : Waiting (reap_expired_leases late).1 (strokes 4) (pos 0)
abandoned_job_retried_example =
    abandoned_job_retried (strokes 5) claimed_attempt (the_job JobStatus.running) late
      late-Consistent claimed_stored claimed_job refl (omega arith)

-- A tick with an entry in the delayed set.
at_retry-Steady : Steady at_retry
at_retry-Steady = goes_on (goes_on (goes_on (goes_on (goes_on starts _) _) _) _) _

tick_completes_example : (run_reaper_once at_retry).0 ≢ none
tick_completes_example = tick_completes at_retry-Steady
