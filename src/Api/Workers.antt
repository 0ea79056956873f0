-- ===== src/Api/Workers.antt =====
-- backend/app/api/workers.py
use ci_system.Prelude.{ℕ, Text, Option, none, some}
use ci_system.Prelude.Int.{ℤ}
use ci_system.Models.{Worker, WorkerStatus}
use ci_system.Runtime.{Runtime, get}
use ci_system.World.{World, now, new_id, save_worker}
use ci_system.Lease.{claim_next_job}
use ci_system.Api.Reply.{Reply, ok, no_content, error}

-- `schemas.LeaseClaim`; the two fields of the lease may be NULL in the table.
pub record LeaseClaim : Type 0 where
  pub attempt_id : Text
  pub job_id : Text
  pub attempt_number : ℕ
  pub lease_token : Option Text
  pub lease_expires_at : Option ℕ
  pub pipeline_yaml : Text
  pub commit_sha : Text
  pub repo_url : Text

-- A worker that was marked dead is online again once it sends a heartbeat.
abbrev pub revived : WorkerStatus → WorkerStatus
revived WorkerStatus.dead = WorkerStatus.online
revived status = status

module _ ⦃rt : Runtime⦄ where
  unfoldable pub register_worker : Text → ℤ → World → Reply Text × World
  register_worker name capacity w =
      let (worker_id, w₁) = new_id w in
      let (t, w₂) = now w₁ in
      let worker : Worker = record {
        name = name;
        status = WorkerStatus.online;
        last_heartbeat_at = t;
        capacity = capacity;
      } in
      (ok worker_id, save_worker worker_id worker w₂)

  unfoldable pub heartbeat : Text → World → Reply (Unit {0}) × World
  heartbeat worker_id w = elim (get w.workers worker_id) [
    | none ↦ (error 404, w)
    | some worker ↦
        let (t, w') = now w in
        let alive = record worker { last_heartbeat_at = t; status = revived worker.status } in
        (ok tt, save_worker worker_id alive w')
  ]

  -- The rows that the answer is made of; the foreign keys rule a missing one out.
  unfoldable pub lease_claim : Text → World → Reply LeaseClaim
  lease_claim attempt_id w = elim (get w.attempts attempt_id) [
    | none ↦ error 500
    | some attempt ↦ elim (get w.jobs attempt.job_id) [
      | none ↦ error 500
      | some job ↦ elim (get w.projects job.project_id) [
        | none ↦ error 500
        | some project ↦ ok (record {
          attempt_id = attempt_id;
          job_id = attempt.job_id;
          attempt_number = attempt.attempt_number;
          lease_token = attempt.lease_token;
          lease_expires_at = attempt.lease_expires_at;
          pipeline_yaml = job.pipeline_snapshot;
          commit_sha = job.commit_sha;
          repo_url = project.repo_url;
        })
      ]
    ]
  ]

  unfoldable pub answer_claim : Option Text × World → Reply LeaseClaim × World
  unfolding lease_claim
  answer_claim (none, w) = (no_content, w)
  answer_claim (some attempt_id, w) = (lease_claim attempt_id w, w)

  unfoldable pub claim_job : Text → World → Reply LeaseClaim × World
  unfolding answer_claim
  claim_job worker_id w = elim (get w.workers worker_id) [
    | none ↦ (error 404, w)
    | some worker ↦ answer_claim (claim_next_job worker_id worker w)
  ]
