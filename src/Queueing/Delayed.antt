-- ===== src/Queueing/Delayed.antt =====
-- Requests that leave the delayed set alone.
use ci_system.Prelude.{
  ◌≡◌, refl, ◌∙◌, inl, inr, codes, Text, text_eq, Option, none, some, [], arith, Option-cases,
  Bool-cases,
}
use ci_system.Prelude.Int.{ℤ}
use ci_system.Models.{Project, Job, Worker, is_online, is_queued}
use ci_system.Runtime.{Runtime, get, parse_pipeline}
use ci_system.World.{World}
use ci_system.RedisClient.{enqueue, dequeue_one}
use ci_system.Lease.{claim_next_job, claim_popped, claim_found, find_attempt, lease_attempt}
use ci_system.JobManager.{insert_job, create_and_enqueue_job}
use ci_system.Api.Workers.{claim_job, answer_claim, heartbeat}
use ci_system.Api.Projects.{ProjectCreate, create_project, update_pipeline}
use ci_system.Api.Jobs.{JobCreate, trigger_job, answer_job, fits_integer}
use ci_system.Api.Webhooks.{Push, push_job, verify, or_head, github_webhook}

module _ ⦃rt : Runtime⦄ where
  pub create_project-delayed :
      (p : ProjectCreate) (w : World) → (create_project p w).1.delayed ≡ w.delayed
  unfolding create_project
  create_project-delayed p w = ground arith

  pub update_pipeline-delayed :
      (k y : Text) (w : World) → (update_pipeline k y w).1.delayed ≡ w.delayed
  unfolding update_pipeline
  update_pipeline-delayed k y w = ground arith

  create_and_enqueue_job-delayed :
      (k : Text) (r : Project) (sha : Text) (b : Option Text) (t : Text) (q : ℤ) (w : World)
      → (create_and_enqueue_job k r sha b t q w).1.delayed ≡ w.delayed
  unfolding create_and_enqueue_job insert_job enqueue
  create_and_enqueue_job-delayed k r sha b t q w =
      elim (Option-cases (parse_pipeline r.pipeline_yaml)) [
        | inl e ↦ rw (create_and_enqueue_job, e) refl
        | inr (p, e) ↦ rw (create_and_enqueue_job, e) refl
      ]

  answer_job-delayed : (r : Option Text × World) → (answer_job r).1.delayed ≡ r.1.delayed
  answer_job-delayed (none, w) = refl
  answer_job-delayed (some k, w) = refl

  pub trigger_job-delayed :
      (k : Text) (p : JobCreate) (w : World) → (trigger_job k p w).1.delayed ≡ w.delayed
  unfolding trigger_job
  trigger_job-delayed k p w = elim (Option-cases (get w.projects k)) [
    | inl e ↦ rw (trigger_job, e)
    | inr (r, e) ↦ elim (Bool-cases (fits_integer p.priority)) [
      | inr outside ↦ rw (trigger_job, e) (rw outside refl)
      | inl fits ↦
          rw (trigger_job, e)
            (rw fits (
              answer_job-delayed _
              ∙ create_and_enqueue_job-delayed k r p.commit_sha p.branch _ p.priority w))
    ]
  ]

  push_job-delayed :
      (k : Text) (r : Project) (p : Push) (w : World) → (push_job k r p w).1.delayed ≡ w.delayed
  unfolding push_job
  push_job-delayed k r p w = elim (Bool-cases (text_eq p.event (codes "push"))) [
    | inr other ↦ rw (push_job, other)
    | inl push ↦ elim (Bool-cases (text_eq (or_head p.after p.head_commit_id) [])) [
      | inl e ↦ rw (push_job, push) (rw e refl)
      | inr e ↦
          rw (push_job, push)
            (rw e (answer_job-delayed _ ∙ create_and_enqueue_job-delayed k r _ _ _ _ w))
    ]
  ]

  pub github_webhook-delayed :
      (k : Text) (t : Option Text) (p : Push) (w : World)
      → (github_webhook k t p w).1.delayed ≡ w.delayed
  unfolding github_webhook
  github_webhook-delayed k t p w = elim (Option-cases (get w.projects k)) [
    | inl e ↦ rw (github_webhook, e)
    | inr (r, e) ↦ elim (Bool-cases (verify r t)) [
      | inr refused ↦ rw (github_webhook, e) (rw refused refl)
      | inl trusted ↦ rw (github_webhook, e) (rw trusted (push_job-delayed k r p w))
    ]
  ]

  pub heartbeat-delayed : (k : Text) (w : World) → (heartbeat k w).1.delayed ≡ w.delayed
  unfolding heartbeat
  heartbeat-delayed k w = ground arith

  find_attempt-delayed : (i : Text) (w : World) → (find_attempt i w).1.delayed ≡ w.delayed
  unfolding find_attempt
  find_attempt-delayed i w = ground arith

  claim_found-delayed :
      (i k : Text) (j : Job) (r : Text × World) → (claim_found i k j r).1.delayed ≡ r.1.delayed
  unfolding claim_found lease_attempt
  claim_found-delayed i k j (h, w) = elim (Option-cases (get w.attempts h)) [
    | inl e ↦ rw (claim_found, e)
    | inr (a, e) ↦ rw (claim_found, e) refl
  ]

  claim_popped-delayed :
      (i : Text) (r : Option Text × World) → (claim_popped i r).1.delayed ≡ r.1.delayed
  unfolding claim_popped
  claim_popped-delayed i (none, w) = refl
  claim_popped-delayed i (some k, w) = elim (Option-cases (get w.jobs k)) [
    | inl e ↦ rw (claim_popped, e)
    | inr (j, e) ↦ elim (Bool-cases (is_queued j.status)) [
      | inr other ↦ rw (claim_popped, e) (rw other refl)
      | inl q ↦
          rw (claim_popped, e)
            (rw q (claim_found-delayed i k j (find_attempt k w) ∙ find_attempt-delayed k w))
    ]
  ]

  dequeue_one-delayed : (w : World) → (dequeue_one w).1.delayed ≡ w.delayed
  unfolding dequeue_one
  dequeue_one-delayed w = ground arith

  claim_next_job-delayed :
      (i : Text) (r : Worker) (w : World) → (claim_next_job i r w).1.delayed ≡ w.delayed
  unfolding claim_next_job
  claim_next_job-delayed i r w = elim (Bool-cases (is_online r.status)) [
    | inr off ↦ rw (claim_next_job, off)
    | inl on ↦
        rw (claim_next_job, on) (claim_popped-delayed i (dequeue_one w) ∙ dequeue_one-delayed w)
  ]

  answer_claim-delayed : (r : Option Text × World) → (answer_claim r).1.delayed ≡ r.1.delayed
  unfolding answer_claim
  answer_claim-delayed (none, w) = refl
  answer_claim-delayed (some k, w) = refl

  pub claim_job-delayed : (k : Text) (w : World) → (claim_job k w).1.delayed ≡ w.delayed
  unfolding claim_job
  claim_job-delayed k w = elim (Option-cases (get w.workers k)) [
    | inl e ↦ rw (claim_job, e)
    | inr (r, e) ↦
        rw (claim_job, e)
          (answer_claim-delayed (claim_next_job k r w) ∙ claim_next_job-delayed k r w)
  ]
