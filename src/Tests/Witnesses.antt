-- ===== src/Tests/Witnesses.antt =====
-- The theorems on jobs and leases at a concrete run.
use ci_system.Prelude.{ℕ, suc, ◌+◌, ◌*◌, ◌≤◌, ◌≡◌, ◌≢◌, ◌↔◌, refl, true, text_eq, codes, some, none}
use ci_system.Prelude.Int.{pos}
use ci_system.Config.{second}
use ci_system.Models.{JobAttempt, JobStatus, AttemptStatus}
use ci_system.Runtime.{get}
use ci_system.DelayedEntry.{delayed_entry}
use ci_system.Lease.{complete_attempt, new_attempt, backoff_seconds}
use ci_system.Reaper.{reap_expired_leases, reconcile_orphaned_jobs}
use ci_system.Server.{claims, serve, serves}
use ci_system.Consistency.{Consistent}
use ci_system.Consistency.Reachable.{
  Reach-Consistent, one_active_attempt, attempts_bounded, reconcile_never_requeues,
}
use ci_system.Reporting.Acceptance.{HoldsLease, report_accepted_iff}
use ci_system.Reporting.Outcome.{status_of, job_status_of, report_verdict, retry_scheduled}
use ci_system.Reporting.Late.{expired_lease_swept}
use ci_system.Reporting.Refusals.{OnlyTail, late_report_refused, refused_report-OnlyTail}
use ci_system.Api.Reply.{error}
use ci_system.Api.Attempts.{AttemptReport, complete, store_tail, answer_report}
use ci_system.Finality.Requests.{verdict_is_final}
use ci_system.Tests.Machine.{machine, strokes}
use ci_system.Tests.Scenario.{
  at_claim, at_claim-Reach, late, late-Consistent, at_success, at_success-Reach, at_retry,
  at_retry-Reach, the_job, claimed_attempt, claimed_HoldsLease, claimed_stored, claimed_job,
  closed_job, failed_attempt, second_attempt, failed_stored, second_stored, infra_failure, success,
}

verdict_is_final_example :
    get (serve (claims (strokes 2)) at_success).jobs (strokes 4)
    ≡ some (the_job JobStatus.succeeded)
verdict_is_final_example =
    verdict_is_final (strokes 4) (the_job JobStatus.succeeded) at_success-Reach
      (serves (claims (strokes 2))) closed_job refl

Reach-Consistent_example : Consistent at_retry
Reach-Consistent_example = Reach-Consistent at_retry-Reach

one_active_attempt_example : strokes 5 ≡ strokes 5
one_active_attempt_example =
    one_active_attempt (strokes 5) (strokes 5) claimed_attempt claimed_attempt at_claim-Reach
      claimed_stored claimed_stored refl refl refl

attempts_bounded_example : (1 ≤ 1) × (1 ≤ 4) × (◌≡◌ {A = ℕ} 1 2 → strokes 5 ≡ strokes 12)
attempts_bounded_example =
    attempts_bounded (strokes 5) (strokes 12) failed_attempt second_attempt at_retry-Reach
      failed_stored second_stored refl

reconcile_never_requeues_example : reconcile_orphaned_jobs at_retry ≡ (0, at_retry)
reconcile_never_requeues_example = reconcile_never_requeues at_retry-Reach

report_accepted_iff_example :
    ((complete_attempt (strokes 5) (strokes 7) success at_claim).0 ≢ none)
    ↔ ((a : JobAttempt) × (e : ℕ) × HoldsLease at_claim (strokes 5) (strokes 7) a e)
report_accepted_iff_example =
    report_accepted_iff (strokes 5) (strokes 7) success at_claim (Reach-Consistent at_claim-Reach)

report_verdict_example :
    let (answer, w') = complete_attempt (strokes 5) (strokes 7) infra_failure at_claim in
    (answer ≡ some (strokes 5, true))
    × (status_of (get w'.attempts (strokes 5)) ≡ some AttemptStatus.infra_error)
    × (job_status_of (get w'.jobs (strokes 4)) ≡ some JobStatus.queued)
report_verdict_example =
    report_verdict (strokes 5) (strokes 7) infra_failure at_claim claimed_attempt (68 * second)
      (Reach-Consistent at_claim-Reach) claimed_HoldsLease

retry_scheduled_example :
    let w' = (complete_attempt (strokes 5) (strokes 7) infra_failure at_claim).1 in
    let ready_at = machine.host.clock (suc (suc (suc at_claim.readings))) + backoff_seconds 1 in
    (get w'.attempts (machine.host.uuid (suc (suc at_claim.readings)))
      ≡ some (new_attempt (strokes 4) 2 (some ready_at)))
    × (machine.sorted_set.score w'.delayed (delayed_entry (strokes 4) (pos 0))
        ≡ some (pos ready_at))
retry_scheduled_example =
    retry_scheduled (strokes 5) (strokes 7) infra_failure at_claim claimed_attempt
      (the_job JobStatus.running) (68 * second) (Reach-Consistent at_claim-Reach) claimed_HoldsLease
      claimed_job refl

expired_lease_swept_example :
    status_of (get (reap_expired_leases late).1.attempts (strokes 5))
    ≡ some AttemptStatus.infra_error
expired_lease_swept_example =
    expired_lease_swept (strokes 5) claimed_attempt late late-Consistent claimed_stored refl

-- A report of success with a last chunk.
abbrev late_report : AttemptReport
late_report = record { report = success; logs_tail = some (codes "bye") }

late_report_refused_example :
    let swept = (reap_expired_leases late).1 in
    ((complete (strokes 5) (strokes 7) late_report swept).0 ≡ error 409)
    × OnlyTail
        (strokes 5)
        (some (codes "bye"))
        swept
        (complete (strokes 5) (strokes 7) late_report swept).1
late_report_refused_example =
    late_report_refused (strokes 5) (strokes 7) late_report claimed_attempt late late-Consistent
      claimed_stored refl

-- The report of a worker with another token.
not_stored : store_tail (strokes 5) (strokes 8) (some (codes "bye")) at_claim ≡ at_claim
unfolding store_tail text_eq
not_stored = rw (store_tail, claimed_stored) refl

not_accepted : complete_attempt (strokes 5) (strokes 8) success at_claim ≡ (none, at_claim)
unfolding complete_attempt text_eq
not_accepted = rw (complete_attempt, claimed_stored) refl

wrong_token : (complete (strokes 5) (strokes 8) late_report at_claim).0 ≡ error 409
unfolding complete answer_report
wrong_token = rw (complete, not_stored) (rw not_accepted refl)

refused_report-OnlyTail_example :
    OnlyTail
      (strokes 5)
      (some (codes "bye"))
      at_claim
      (complete (strokes 5) (strokes 8) late_report at_claim).1
refused_report-OnlyTail_example =
    refused_report-OnlyTail (strokes 5) (strokes 8) late_report at_claim
      (Reach-Consistent at_claim-Reach) wrong_token
