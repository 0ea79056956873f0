-- ===== src/Tests/Scenario.antt =====
-- A short run of the server on the runtime of the tests: a project, a worker, a job, a claim, and
-- a report of each kind.
use ci_system.Prelude.{◌≡◌, refl, false, codes, text_eq, ◌≢◌, none, some, ◌*◌, arith}
use ci_system.Prelude.Int.{pos}
use ci_system.Config.{second}
use ci_system.Models.{Project, Job, JobAttempt, JobStatus, AttemptStatus}
use ci_system.Runtime.{get, parse_pipeline}
use ci_system.World.{World}
use ci_system.RedisClient.{enqueue, dequeue_one, queue_score}
use ci_system.Lease.{
  Report, new_attempt, create_first_attempt, find_attempt, lease_attempt, claim_found, claim_popped,
  claim_next_job, complete_attempt, complete_leased, complete_valid, finish_attempt, maybe_retry,
  schedule_delayed_requeue, backoff_seconds,
}
use ci_system.JobManager.{insert_job, create_and_enqueue_job}
use ci_system.Pipeline.{
  parse_document, validate, supported_network, must_have_steps, parse_steps, parse_step,
}
use ci_system.Api.Attempts.{AttemptReport, complete, store_tail, answer_report, announce}
use ci_system.Api.Workers.{register_worker, claim_job, answer_claim, lease_claim}
use ci_system.Api.Projects.{create_project}
use ci_system.Api.Jobs.{trigger_job}
use ci_system.Server.{
  creates_project, registers_worker, triggers_job, claims, completes, serve, start, Reach, begins,
  follows, serves,
}
use ci_system.DelayedEntry.{delayed_entry}
use ci_system.Reporting.Acceptance.{HoldsLease}
use ci_system.Consistency.{Consistent, Consistent-later}
use ci_system.Consistency.Reachable.{Reach-Consistent}
use ci_system.Tests.Machine.{machine, strokes}

abbrev pub at_claim : World
at_claim = serve (claims (strokes 2)) (
    serve
      (triggers_job (strokes 0)
        (record { commit_sha = codes "c0ffee"; branch = none; priority = pos 0 }))
      (serve (registers_worker (codes "worker") (pos 1)) (
        serve
          (creates_project (record {
            name = codes "demo";
            repo_url = codes "repo";
            default_branch = codes "main";
            pipeline_yaml = codes "yaml";
          }))
          start)))

pub at_claim-Reach : Reach at_claim
at_claim-Reach =
    follows (follows (follows (follows begins (serves _)) (serves _)) (serves _)) (serves _)

abbrev pub infra_failure : Report
infra_failure = record { exit_code = pos 137; is_permanent_failure = false; failed_step = none }

abbrev pub success : Report
success = record { exit_code = pos 0; is_permanent_failure = false; failed_step = none }

abbrev reported : Report → AttemptReport
reported r = record { report = r; logs_tail = none }

abbrev pub at_success : World
at_success = serve (completes (strokes 5) (strokes 7) (reported success)) at_claim

pub at_success-Reach : Reach at_success
at_success-Reach = follows at_claim-Reach (serves _)

abbrev pub at_retry : World
at_retry = serve (completes (strokes 5) (strokes 7) (reported infra_failure)) at_claim

pub at_retry-Reach : Reach at_retry
at_retry-Reach = follows at_claim-Reach (serves _)

abbrev pub the_job : JobStatus → Job
the_job status = record {
  project_id = strokes 0;
  commit_sha = codes "c0ffee";
  branch = codes "main";
  trigger = codes "manual";
  status = status;
  priority = pos 0;
  pipeline_snapshot = codes "yaml";
}

abbrev pub claimed_attempt : JobAttempt
claimed_attempt = record {
  job_id = strokes 4;
  attempt_number = 1;
  status = AttemptStatus.leased;
  worker_id = some (strokes 2);
  lease_token = some (strokes 7);
  lease_expires_at = some (68 * second);
  started_at = some (9 * second);
  finished_at = none;
  exit_code = none;
  failed_step = none;
  is_permanent_failure = false;
  logs = codes "";
  next_retry_at = none;
}

pub claimed_stored : get at_claim.attempts (strokes 5) ≡ some claimed_attempt
unfolding serve start create_project register_worker trigger_job claim_job answer_claim lease_claim
    create_and_enqueue_job insert_job create_first_attempt enqueue dequeue_one claim_next_job
    claim_popped find_attempt claim_found lease_attempt parse_pipeline parse_document validate
    supported_network must_have_steps parse_steps parse_step queue_score text_eq
claimed_stored = refl

pub claimed_job : get at_claim.jobs (strokes 4) ≡ some (the_job JobStatus.running)
unfolding serve start create_project register_worker trigger_job claim_job answer_claim lease_claim
    create_and_enqueue_job insert_job create_first_attempt enqueue dequeue_one claim_next_job
    claim_popped find_attempt claim_found lease_attempt parse_pipeline parse_document validate
    supported_network must_have_steps parse_steps parse_step queue_score text_eq
claimed_job = refl

pub claimed_readings : at_claim.readings ≡ 10
unfolding serve start create_project register_worker trigger_job claim_job answer_claim lease_claim
    create_and_enqueue_job insert_job create_first_attempt enqueue dequeue_one claim_next_job
    claim_popped find_attempt claim_found lease_attempt parse_pipeline parse_document validate
    supported_network must_have_steps parse_steps parse_step queue_score text_eq
claimed_readings = refl

pub closed_job : get at_success.jobs (strokes 4) ≡ some (the_job JobStatus.succeeded)
unfolding serve start create_project register_worker trigger_job claim_job answer_claim lease_claim
    create_and_enqueue_job insert_job create_first_attempt enqueue dequeue_one claim_next_job
    claim_popped find_attempt claim_found lease_attempt parse_pipeline parse_document validate
    supported_network must_have_steps parse_steps parse_step queue_score text_eq complete
    complete_attempt complete_leased complete_valid finish_attempt maybe_retry
    schedule_delayed_requeue backoff_seconds store_tail answer_report announce
closed_job = refl

abbrev pub failed_attempt : JobAttempt
failed_attempt = record claimed_attempt {
  status = AttemptStatus.infra_error;
  finished_at = some (11 * second);
  exit_code = some (pos 137);
}

abbrev pub second_attempt : JobAttempt
second_attempt = new_attempt (strokes 4) 2 (some (15 * second))

pub failed_stored : get at_retry.attempts (strokes 5) ≡ some failed_attempt
unfolding serve start create_project register_worker trigger_job claim_job answer_claim lease_claim
    create_and_enqueue_job insert_job create_first_attempt enqueue dequeue_one claim_next_job
    claim_popped find_attempt claim_found lease_attempt parse_pipeline parse_document validate
    supported_network must_have_steps parse_steps parse_step queue_score text_eq complete
    complete_attempt complete_leased complete_valid finish_attempt maybe_retry
    schedule_delayed_requeue backoff_seconds store_tail answer_report announce
failed_stored = refl

pub second_stored : get at_retry.attempts (strokes 12) ≡ some second_attempt
unfolding serve start create_project register_worker trigger_job claim_job answer_claim lease_claim
    create_and_enqueue_job insert_job create_first_attempt enqueue dequeue_one claim_next_job
    claim_popped find_attempt claim_found lease_attempt parse_pipeline parse_document validate
    supported_network must_have_steps parse_steps parse_step queue_score text_eq complete
    complete_attempt complete_leased complete_valid finish_attempt maybe_retry
    schedule_delayed_requeue backoff_seconds store_tail answer_report announce
second_stored = refl

-- The project before its job is claimed.
abbrev pub demo : Project
demo = record {
  name = codes "demo";
  repo_url = codes "repo";
  default_branch = codes "main";
  pipeline_yaml = codes "yaml";
  webhook_token = strokes 1;
}

pub demo_parses : parse_pipeline (codes "yaml") ≢ none
unfolding parse_pipeline parse_document validate supported_network must_have_steps parse_steps
    parse_step text_eq
demo_parses e = cc

pub claimed_HoldsLease : HoldsLease at_claim (strokes 5) (strokes 7) claimed_attempt (68 * second)
claimed_HoldsLease = record {
  stored = claimed_stored;
  token = refl;
  active = refl;
  expiry = refl;
  in_time = rw claimed_readings (omega arith);
}

pub claimed_delayed : at_claim.delayed ≡ machine.sorted_set.empty
unfolding serve start create_project register_worker trigger_job claim_job answer_claim lease_claim
    create_and_enqueue_job insert_job create_first_attempt enqueue dequeue_one claim_next_job
    claim_popped find_attempt claim_found lease_attempt parse_pipeline parse_document validate
    supported_network must_have_steps parse_steps parse_step queue_score text_eq
claimed_delayed = refl

pub retry_delayed :
    at_retry.delayed
    ≡ machine.sorted_set.zadd machine.sorted_set.empty
        (delayed_entry (strokes 4) (pos 0))
        (pos (15 * second))
unfolding serve start create_project register_worker trigger_job claim_job answer_claim lease_claim
    create_and_enqueue_job insert_job create_first_attempt enqueue dequeue_one claim_next_job
    claim_popped find_attempt claim_found lease_attempt parse_pipeline parse_document validate
    supported_network must_have_steps parse_steps parse_step queue_score text_eq complete
    complete_attempt complete_leased complete_valid finish_attempt maybe_retry
    schedule_delayed_requeue backoff_seconds store_tail answer_report announce
retry_delayed = refl

-- The clock long after the claim.
abbrev pub late : World
late = record at_claim { readings = 100 }

pub late-Consistent : Consistent late
late-Consistent =
    Consistent-later 100 (rw claimed_readings (omega arith)) (Reach-Consistent at_claim-Reach)
