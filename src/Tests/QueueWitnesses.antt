-- ===== src/Tests/QueueWitnesses.antt =====
-- The theorems on the queues, the pipelines and the analyses at concrete inputs.
use Prim.Native.Nat.{min}
use ci_system.Prelude.{
  ◌↔◌, ◌≢◌, ◌*◌, ◌^◌, ◌≤◌, ◌≡◌, refl, false, codes, text_eq, none, some, [], ◌∷◌, arith,
}
use ci_system.Prelude.Int.{ℤ, pos, ◌-ℤ◌, ◌*ℤ◌, ◌+ℤ◌}
use ci_system.Config.{second, default_settings}
use ci_system.Models.{Worker, WorkerStatus, JobStatus}
use ci_system.Runtime.{Runtime, get, put}
use ci_system.World.{World}
use ci_system.RedisClient.{queue_score, dequeue_one, enqueue}
use ci_system.DelayedEntry.{delayed_entry, rpartition, read_int}
use ci_system.Lease.{claim_next_job, backoff_seconds}
use ci_system.Api.Jobs.{JobCreate, trigger_job}
use ci_system.Pipeline.{
  Pipeline, mapping, parse_document, validate, supported_network, must_have_steps, parse_steps,
  parse_step,
}
use ci_system.Pipeline.Validity.{IsValid, accepted_pipeline-IsValid}
use ci_system.Ai.Analyzer.{
  returned, raised, anthropic, analyze_attempt, pending_analysis, get_provider, call_provider,
  clean_response, provided, make_request, answer_text,
}
use ci_system.Ai.Anthropic.{join_lines}
use ci_system.Ai.Schemas.{not_an_object}
use ci_system.Reporting.Outcome.{put_self}
use ci_system.Ai.Rows.{Recorded, analysis-Recorded, analysis_runs_once, analysis_raises_iff}
use ci_system.Queueing.Scores.{pop_respects_priority}
use ci_system.Queueing.Entries.{delayed_entry_roundtrip}
use ci_system.Queueing.Creation.{Triggered, created_job_waits, backoff_doubles}
use ci_system.Queueing.Claims.{GrantsLease, claim-GrantsLease, queued_job_claimed}
use ci_system.Server.{start}
use ci_system.Tests.Machine.{machine, strokes, test_pipeline}
use ci_system.Tests.Scenario.{at_retry, the_job, claimed_attempt, demo, demo_parses}

abbrev ready_worker : Worker
ready_worker = record {
  name = codes "worker";
  status = WorkerStatus.online;
  last_heartbeat_at = 0;
  capacity = pos 1;
}

claim-GrantsLease_example :
    GrantsLease at_retry (strokes 2) (claim_next_job (strokes 2) ready_worker at_retry)
claim-GrantsLease_example = claim-GrantsLease (strokes 2) ready_worker at_retry

-- Two jobs in the queue, of priorities 0 and 5.
abbrev two_jobs : World
two_jobs = enqueue (strokes 1) (pos 5) (3 * second) (enqueue (strokes 0) (pos 0) second start)

delayed_entry_roundtrip_example :
    let (id, text) = rpartition (delayed_entry (codes "a:b") (pos 12)) in
    (id ≡ codes "a:b") × (read_int text ≡ some (pos 12))
delayed_entry_roundtrip_example = delayed_entry_roundtrip (codes "a:b") (pos 12)

-- The world with the project of the tests and nothing else.
abbrev demo_only : World
demo_only = record start { projects = put start.projects (strokes 0) demo }

abbrev demo_request : JobCreate
demo_request = record { commit_sha = codes "c0ffee"; branch = none; priority = pos 5 }

created_job_waits_example :
    Triggered
      (strokes 0)
      demo
      demo_request
      demo_only
      (trigger_job (strokes 0) demo_request demo_only)
created_job_waits_example =
    created_job_waits (strokes 0) demo demo_request demo_only (put_self start.projects _ demo)
      demo_parses refl

backoff_doubles_example :
    (backoff_seconds 1 ≡ 2 * second)
    × (backoff_seconds 3 ≡ min (2 * backoff_seconds 2) (120 * second))
    × (backoff_seconds 2 ≤ 120 * second)
backoff_doubles_example = backoff_doubles 1

abbrev low_score : ℤ
low_score = queue_score (pos 0) second

abbrev high_score : ℤ
high_score = queue_score (pos 5) (3 * second)

low_stored : machine.sorted_set.score two_jobs.queue (strokes 0) ≡ some low_score
unfolding enqueue text_eq start
low_stored = refl

high_stored : machine.sorted_set.score two_jobs.queue (strokes 1) ≡ some high_score
unfolding enqueue text_eq start
high_stored = refl

-- The job that was enqueued last is served first.
abbrev after_pop : World
after_pop = (dequeue_one two_jobs).1

popped_first : dequeue_one two_jobs ≡ (some (strokes 1), after_pop)
unfolding dequeue_one enqueue text_eq queue_score ◌-ℤ◌ ◌*ℤ◌ ◌+ℤ◌ start
popped_first = refl

pop_respects_priority_example : 0 ≤ 5
pop_respects_priority_example =
    pop_respects_priority (strokes 1) (strokes 0) 0 5 second (3 * second) two_jobs after_pop
      high_stored low_stored (omega arith) (omega arith) popped_first

abbrev test_result : Pipeline
test_result = record {
  image = codes "python:3.11-slim";
  timeout_seconds = 900;
  resources = record { memory = codes "512m"; cpus = 2 ^ 1074 };
  network = codes "none";
  steps = record { name = codes "test"; run = codes "pytest -q"; allow_failure = false } ∷ [];
}

test_accepted : parse_document (mapping test_pipeline) ≡ some test_result
unfolding parse_document validate supported_network must_have_steps parse_steps parse_step text_eq
test_accepted = refl

accepted_pipeline-IsValid_example : IsValid test_result
accepted_pipeline-IsValid_example =
    accepted_pipeline-IsValid (mapping test_pipeline) test_result test_accepted

analysis-Recorded_example :
    Recorded (strokes 5) at_retry (analyze_attempt (strokes 5) claimed_attempt at_retry)
analysis-Recorded_example = analysis-Recorded (strokes 5) claimed_attempt at_retry

abbrev analyzed_once : World
analyzed_once = record at_retry { analyses = put at_retry.analyses (strokes 5) pending_analysis }

first_analysis :
    analyze_attempt (strokes 5) claimed_attempt analyzed_once
    ≡ (returned pending_analysis, analyzed_once)
unfolding analyze_attempt text_eq
first_analysis = rw (analyze_attempt, put_self at_retry.analyses (strokes 5) pending_analysis)

analysis_runs_once_example :
    analyze_attempt (strokes 5) claimed_attempt analyzed_once
    ≡ (returned pending_analysis, analyzed_once)
analysis_runs_once_example =
    analysis_runs_once (strokes 5) claimed_attempt claimed_attempt analyzed_once analyzed_once
      pending_analysis first_analysis

-- The runtime of the tests with the hosted provider, which answers with a JSON array.
abbrev hosted : Runtime
hosted = record machine {
  settings = record default_settings { ai_provider = codes "anthropic"; ai_api_key = codes "key" };
}

abbrev hosted_world : World ⦃rt = hosted⦄
hosted_world = record {
  projects = (strokes 0, demo) ∷ [];
  jobs = (strokes 4, the_job JobStatus.queued) ∷ [];
  attempts = (strokes 5, claimed_attempt) ∷ [];
  workers = [];
  analyses = [];
  queue = hosted.sorted_set.empty;
  delayed = hosted.sorted_set.empty;
  published = [];
  background = [];
  readings = 10;
}

hosted_job : get ⦃rt = hosted⦄ hosted_world.jobs (strokes 4) ≡ some (the_job JobStatus.queued)
unfolding text_eq
hosted_job = refl

hosted_project : get ⦃rt = hosted⦄ hosted_world.projects (strokes 0) ≡ some demo
unfolding text_eq
hosted_project = refl

hosted_provider : get_provider ⦃rt = hosted⦄ ≡ provided anthropic
unfolding get_provider text_eq
hosted_provider = refl

hosted_answer :
    call_provider ⦃rt = hosted⦄ anthropic
      (make_request ⦃rt = hosted⦄ demo (the_job JobStatus.queued) claimed_attempt)
    ≡ provided (codes "[1, 2]")
unfolding call_provider answer_text join_lines
hosted_answer = refl

analysis_raises_iff_example :
    ((analyze_attempt ⦃rt = hosted⦄ (strokes 5) claimed_attempt hosted_world).0 ≡ raised)
    ↔ (hosted.load_json (clean_response (codes "[1, 2]")) ≡ not_an_object)
analysis_raises_iff_example =
    analysis_raises_iff ⦃rt = hosted⦄ (strokes 5) (codes "[1, 2]") claimed_attempt
      (the_job JobStatus.queued) demo anthropic hosted_world refl hosted_job hosted_project
      hosted_provider hosted_answer

-- A world with one queued job, which the queue gives up next.
abbrev waiting : World
waiting = record {
  projects = [];
  jobs = (strokes 4, the_job JobStatus.queued) ∷ [];
  attempts = [];
  workers = [];
  analyses = [];
  queue = machine.sorted_set.zadd machine.sorted_set.empty (strokes 4) (pos 0);
  delayed = machine.sorted_set.empty;
  published = [];
  background = [];
  readings = 10;
}

waiting_popped :
    machine.sorted_set.zpopmin waiting.queue ≡ some (strokes 4, machine.sorted_set.empty)
unfolding text_eq
waiting_popped = refl

waiting_job : get waiting.jobs (strokes 4) ≡ some (the_job JobStatus.queued)
unfolding text_eq
waiting_job = refl

queued_job_claimed_example : (claim_next_job (strokes 2) ready_worker waiting).0 ≢ none
queued_job_claimed_example =
    queued_job_claimed (strokes 2) (strokes 4) ready_worker (the_job JobStatus.queued)
      machine.sorted_set.empty waiting refl waiting_popped waiting_job refl
