-- ===== src/JobManager.antt =====
-- backend/app/scheduler/job_manager.py: creating a job and its first attempt.
use ci_system.Prelude.{Text, Option, none, some, [], ◌∷◌}
use ci_system.Prelude.Int.{ℤ}
use ci_system.Models.{Project, Job, JobStatus}
use ci_system.Runtime.{Runtime, parse_pipeline}
use ci_system.World.{World, now, new_id, save_job}
use ci_system.RedisClient.{enqueue}
use ci_system.Lease.{create_first_attempt}

-- `branch or project.default_branch`
abbrev pub or_branch : Option Text → Text → Text
or_branch none default_branch = default_branch
or_branch (some []) default_branch = default_branch
or_branch (some (c ∷ cs)) default_branch = c ∷ cs

abbrev pub new_job : Text → Project → Text → Option Text → Text → ℤ → Job
new_job project_id project commit_sha branch trigger priority = record {
  project_id = project_id;
  commit_sha = commit_sha;
  branch = or_branch branch project.default_branch;
  trigger = trigger;
  status = JobStatus.queued;
  priority = priority;
  pipeline_snapshot = project.pipeline_yaml;
}

module _ ⦃rt : Runtime⦄ where
  -- The rows of the job and of its first attempt, before the commit.
  unfoldable pub insert_job : Job → World → Text × World
  unfolding create_first_attempt
  insert_job job w =
      let (job_id, w₁) = new_id w in
      let (attempt_id, w₂) = create_first_attempt job_id (save_job job_id job w₁) in (job_id, w₂)

  -- The id of the job, or none for a `PipelineParseError`.
  unfoldable pub create_and_enqueue_job :
      Text → Project → Text → Option Text → Text → ℤ → World → Option Text × World
  unfolding insert_job
  create_and_enqueue_job project_id project commit_sha branch trigger priority w =
      elim (parse_pipeline project.pipeline_yaml) [
        | none ↦ (none, w)
        | some pipeline ↦
            let (job_id, w₁) =
              insert_job (new_job project_id project commit_sha branch trigger priority) w in
            let (t, w₂) = now w₁ in (some job_id, enqueue job_id priority t w₂)
      ]
