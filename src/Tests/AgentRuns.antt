-- ===== src/Tests/AgentRuns.antt =====
-- Runs of the worker on the daemon and the network of the tests.
use ci_system.Prelude.{◌*◌, ◌^◌, ◌≡◌, refl, false, Text, codes, text_eq, some, [], ◌∷◌}
use ci_system.Prelude.Int.{pos}
use ci_system.Config.{second}
use ci_system.Models.{JobAttempt, JobStatus}
use ci_system.Pipeline.{
  Pipeline, PipelineStep, parse_document, validate, supported_network, must_have_steps, parse_steps,
  parse_step,
}
use ci_system.Runtime.{get, parse_pipeline}
use ci_system.Api.Workers.{LeaseClaim, register_worker, claim_job, answer_claim, lease_claim}
use ci_system.Agent.Shell.{all_safe, is_safe, escape_quotes, quote}
use ci_system.Agent.Executor.{
  ExecutionResult, Outcome, returned, succeeded, Session, next_item, log_bytes, drain, inspect,
  watch, exec,
}
use ci_system.Agent.Steps.{
  checkout_cmd, run_step, run_each, clean_up, run_in_container, run_steps, run_pipeline,
}
use ci_system.Agent.Network.{Client, found, post, serve_all}
use ci_system.Agent.Client.{on_log, join, execute, report, report_outcome}
use ci_system.Reporting.Outcome.{job_status_of}
use ci_system.RedisClient.{enqueue, dequeue_one, queue_score}
use ci_system.Lease.{
  create_first_attempt, find_attempt, lease_attempt, claim_found, claim_popped, claim_next_job,
  complete_attempt, complete_leased, complete_valid, finish_attempt, maybe_retry,
}
use ci_system.JobManager.{insert_job, create_and_enqueue_job}
use ci_system.Api.Attempts.{append_log, complete, store_tail, answer_report, announce}
use ci_system.Api.Projects.{create_project}
use ci_system.Api.Jobs.{trigger_job}
use ci_system.Server.{serve, start}
use ci_system.Working.Delivering.{ran}
use ci_system.Tests.Machine.{machine, strokes}
use ci_system.Tests.Scenario.{at_claim, claimed_attempt}
use ci_system.Tests.Daemon.{test_daemon, test_network}

abbrev pub a_step : Text → PipelineStep
a_step command = record { name = codes "test"; run = command; allow_failure = false }

abbrev pub a_pipeline : Text → Pipeline
a_pipeline command = record {
  image = codes "python:3.11-slim";
  timeout_seconds = 900;
  resources = record { memory = codes "512m"; cpus = 2 ^ 1074 };
  network = codes "none";
  steps = a_step command ∷ [];
}

abbrev pub a_lease : Text → LeaseClaim
a_lease yaml = record {
  attempt_id = strokes 5;
  job_id = strokes 4;
  attempt_number = 1;
  lease_token = some (strokes 7);
  lease_expires_at = some (68 * second);
  pipeline_yaml = yaml;
  commit_sha = codes "c0ffee";
  repo_url = codes "repo";
}

-- A session whose client collects the messages.
abbrev pub keep : Text → Text → Text
keep message said = message

abbrev pub at_rest : Session ⦃dk = test_daemon⦄ Text
at_rest = record { daemon = []; readings = 0; client = [] }

abbrev pub ran_alone : Text → Outcome ExecutionResult × Session ⦃dk = test_daemon⦄ Text
ran_alone command =
    run_pipeline ⦃dk = test_daemon⦄ keep (a_pipeline command) (codes "repo") (codes "c0ffee")
      (codes "") at_rest

abbrev pub passed_alone : ExecutionResult
passed_alone =
    succeeded (record { name = codes "test"; exit_code = pos 0; duration = 4 * second } ∷ [])

pub passing_run : (ran_alone (codes "pytest -q")).0 ≡ returned passed_alone
unfolding run_pipeline run_steps run_in_container clean_up run_each run_step exec watch inspect
    drain next_item log_bytes checkout_cmd quote all_safe is_safe escape_quotes text_eq
passing_run = refl

-- The session of a worker that has just claimed the job.
abbrev pub a_session : Session ⦃dk = test_daemon⦄ Client
a_session = record {
  daemon = [];
  readings = 0;
  client = record { world = at_claim; calls = 0; log_buffer = [] };
}

abbrev pub worker_ran : Outcome ExecutionResult × Session ⦃dk = test_daemon⦄ Client
worker_ran =
    ran ⦃net = test_network⦄ ⦃dk = test_daemon⦄ (a_lease (codes "yaml"))
      (a_pipeline (codes "pytest -q")) a_session

abbrev pub written_attempt : JobAttempt
written_attempt = record claimed_attempt { logs = join worker_ran.1.client.log_buffer }

pub worker_result : worker_ran.0 ≡ returned passed_alone
unfolding run_pipeline run_steps run_in_container clean_up run_each run_step exec watch inspect
    drain next_item log_bytes checkout_cmd quote all_safe is_safe escape_quotes text_eq
worker_result = refl

pub written :
    get (found ⦃net = test_network⦄ worker_ran.1.client).attempts (strokes 5) ≡ some written_attempt
unfolding run_pipeline run_steps run_in_container clean_up run_each run_step exec watch inspect
    drain next_item log_bytes checkout_cmd quote all_safe is_safe escape_quotes text_eq on_log post
    serve_all append_log serve start create_project register_worker trigger_job claim_job
    answer_claim lease_claim create_and_enqueue_job insert_job create_first_attempt enqueue
    dequeue_one claim_next_job claim_popped find_attempt claim_found lease_attempt parse_pipeline
    parse_document validate supported_network must_have_steps parse_steps parse_step queue_score
written = refl

pub claimed_parses : parse_pipeline (codes "yaml") ≡ some (a_pipeline (codes "pytest -q"))
unfolding parse_pipeline parse_document validate supported_network must_have_steps parse_steps
    parse_step text_eq
claimed_parses = refl

pub written_readings : (found ⦃net = test_network⦄ worker_ran.1.client).readings ≡ 10
unfolding run_pipeline run_steps run_in_container clean_up run_each run_step exec watch inspect
    drain next_item log_bytes checkout_cmd quote all_safe is_safe escape_quotes text_eq on_log post
    serve_all append_log serve start create_project register_worker trigger_job claim_job
    answer_claim lease_claim create_and_enqueue_job insert_job create_first_attempt enqueue
    dequeue_one claim_next_job claim_popped find_attempt claim_found lease_attempt parse_pipeline
    parse_document validate supported_network must_have_steps parse_steps parse_step queue_score
written_readings = refl

pub report_settles :
    job_status_of (
      get
        (execute ⦃net = test_network⦄ ⦃dk = test_daemon⦄
          (a_lease (codes "yaml"))
          a_session).1.client.world.jobs
        (strokes 4))
    ≡ some JobStatus.succeeded
unfolding run_pipeline run_steps run_in_container clean_up run_each run_step exec watch inspect
    drain next_item log_bytes checkout_cmd quote all_safe is_safe escape_quotes text_eq on_log post
    serve_all append_log serve start create_project register_worker trigger_job claim_job
    answer_claim lease_claim create_and_enqueue_job insert_job create_first_attempt enqueue
    dequeue_one claim_next_job claim_popped find_attempt claim_found lease_attempt parse_pipeline
    parse_document validate supported_network must_have_steps parse_steps parse_step queue_score
    execute report_outcome report complete complete_attempt complete_leased complete_valid
    finish_attempt maybe_retry store_tail answer_report announce
report_settles = refl
