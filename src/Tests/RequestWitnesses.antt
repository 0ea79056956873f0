-- ===== src/Tests/RequestWitnesses.antt =====
-- The theorems on renewals, pushes, excerpts and answers at concrete inputs.
use ci_system.Prelude.{
  false, ◌&&◌, ℕ, ◌*◌, ◌≡◌, ◌≢◌, ◌⊎◌, refl, ap, true, codes, text_eq, none, some, [], ◌∷◌, arith,
}
use ci_system.Prelude.Int.{pos, ◌<ℤ◌}
use ci_system.Config.{second}
use ci_system.Models.{Project, JobAttempt, is_active}
use ci_system.Runtime.{get, parse_pipeline}
use ci_system.World.{World}
use ci_system.RedisClient.{queue_score, enqueue}
use ci_system.Lease.{holds_token, create_first_attempt}
use ci_system.JobManager.{insert_job, create_and_enqueue_job}
use ci_system.Pipeline.{
  parse_document, validate, supported_network, must_have_steps, parse_steps, parse_step,
}
use ci_system.Api.Reply.{ok, error}
use ci_system.Api.Attempts.{renew}
use ci_system.Api.Webhooks.{Push, verify, push_job, branch_of, github_webhook}
use ci_system.Ai.Schemas.{
  FailureAnalysisResult, raw_result, validate_result, is_one_of, sized, unit_interval,
}
use ci_system.Ai.Validation.{IsBounded, validate_result-IsBounded}
use ci_system.Queueing.Pushes.{push_needs_token}
use ci_system.Queueing.Scores.{fifo_at_priority_zero}
use ci_system.Reporting.Renewal.{renewed_row, renewal_cases}
use ci_system.Tests.Machine.{machine, strokes}
use ci_system.Tests.Scenario.{at_claim, demo}

renewal_cases_example :
    ((renew (strokes 5) (strokes 7) at_claim ≡ (error 409, at_claim))
      × ((b : JobAttempt)
          → get at_claim.attempts (strokes 5) ≡ some b
          → (holds_token b.lease_token (strokes 7) && is_active b.status) ≡ false))
    ⊎ ((a : JobAttempt) × (get at_claim.attempts (strokes 5) ≡ some a)
        × (holds_token a.lease_token (strokes 7) ≡ true)
        × (is_active a.status ≡ true)
        × ((renew (strokes 5) (strokes 7) at_claim).0 ≡ ok tt)
        × (get (renew (strokes 5) (strokes 7) at_claim).1.attempts (strokes 5)
            ≡ some (renewed_row a (machine.host.clock at_claim.readings))))
renewal_cases_example = renewal_cases (strokes 5) (strokes 7) at_claim

fifo_at_priority_zero_example : queue_score (pos 0) second <ℤ queue_score (pos 0) (3 * second)
fifo_at_priority_zero_example =
    fifo_at_priority_zero second (3 * second) (omega arith) (omega arith)

abbrev with_project : World
with_project = record {
  projects = (strokes 0, demo) ∷ [];
  jobs = [];
  attempts = [];
  workers = [];
  analyses = [];
  queue = machine.sorted_set.empty;
  delayed = machine.sorted_set.empty;
  published = [];
  background = [];
  readings = 10;
}

abbrev a_push : Push
a_push = record {
  event = codes "push";
  after = some (codes "c0ffee");
  head_commit_id = none;
  ref = codes "main";
}

push_reads : (github_webhook (strokes 0) (some (strokes 1)) a_push with_project).1.readings ≡ 13
unfolding github_webhook verify push_job branch_of create_and_enqueue_job insert_job
    create_first_attempt enqueue parse_pipeline parse_document validate supported_network
    must_have_steps parse_steps parse_step text_eq
push_reads = refl

push_has_effect :
    (github_webhook (strokes 0) (some (strokes 1)) a_push with_project).1 ≢ with_project
push_has_effect e =
    let more : 13 ≡ 10 = rw push_reads at (ap (λ (w : World). w.readings) e) in
    absurd (different more)
  where
    different : ¬ (◌≡◌ {A = ℕ} 13 10)
    different h = omega arith

push_needs_token_example :
    (r : Project) × (get with_project.projects (strokes 0) ≡ some r)
    × (some (strokes 1) ≡ some r.webhook_token)
    × (r.webhook_token ≢ [])
    × (codes "push" ≡ codes "push")
push_needs_token_example =
    push_needs_token (strokes 0) (some (strokes 1)) a_push with_project push_has_effect

abbrev an_answer : FailureAnalysisResult
an_answer = record {
  failure_category = codes "unknown";
  root_cause = codes "a";
  explanation = codes "b";
  suggested_fix = codes "c";
  confidence = 200000000;
}

answer_accepted : validate_result (raw_result an_answer) ≡ some an_answer
unfolding validate_result is_one_of sized unit_interval text_eq
answer_accepted = refl

validate_result-IsBounded_example : IsBounded an_answer
validate_result-IsBounded_example =
    validate_result-IsBounded (raw_result an_answer) an_answer answer_accepted
