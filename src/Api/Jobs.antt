-- ===== src/Api/Jobs.antt =====
-- backend/app/api/jobs.py
use ci_system.Prelude.{ℕ, ◌^◌, Bool, not, ◌&&◌, Text, codes, Option, none, some, if◌then◌else◌}
use ci_system.Prelude.Int.{ℤ, pos, neg, ltb_ℤ}
use ci_system.Models.{Job, AiAnalysis, is_failure}
use ci_system.Runtime.{Runtime, get, parse_pipeline}
use ci_system.World.{World}
use ci_system.JobManager.{create_and_enqueue_job}
use ci_system.Ai.Analyzer.{Analyzed, returned, raised, analyze_attempt}
use ci_system.Api.Reply.{Reply, ok, error}

-- `schemas.JobCreate`, its defaults applied.
pub record JobCreate : Type 0 where
  pub commit_sha : Text
  pub branch : Option Text
  pub priority : ℤ

-- The answer of both routes that create a job.
abbrev pub answer_job : {S : Type 0} → Option Text × S → Reply Text × S
answer_job (none, w) = (error 422, w)
answer_job (some job_id, w) = (ok job_id, w)

abbrev pub answer_analysis : {S : Type 0} → Analyzed × S → Reply AiAnalysis × S
answer_analysis (returned analysis, w) = (ok analysis, w)
answer_analysis (raised, w) = (error 500, w)

-- The range of the database's INTEGER, the type of the column `priority`.
abbrev pub fits_integer : ℤ → Bool
fits_integer n = not (ltb_ℤ n (neg (2 ^ 31))) && ltb_ℤ n (pos (2 ^ 31))

module _ ⦃rt : Runtime⦄ where
  -- A pipeline that does not parse is found before the database refuses the row, which rolls the
  -- transaction back.
  unfoldable pub refusal : Text → ℕ
  refusal pipeline_yaml = elim (parse_pipeline pipeline_yaml) [ none ↦ 422 | some pipeline ↦ 500 ]

  unfoldable pub trigger_job : Text → JobCreate → World → Reply Text × World
  trigger_job project_id payload w = elim (get w.projects project_id) [
    | none ↦ (error 404, w)
    | some project ↦
        if fits_integer payload.priority
        then answer_job (
            create_and_enqueue_job project_id project payload.commit_sha payload.branch
              (codes "manual") payload.priority w)
        else (error (refusal project.pipeline_yaml), w)
  ]

  unfoldable pub get_job : Text → World → Reply Job
  get_job job_id w = elim (get w.jobs job_id) [ none ↦ error 404 | some job ↦ ok job ]

  unfoldable pub get_attempt_analysis : Text → World → Reply AiAnalysis
  get_attempt_analysis attempt_id w = elim (get w.attempts attempt_id) [
    | none ↦ error 404
    | some attempt ↦ elim (get w.analyses attempt_id) [
      | none ↦ error 404
      | some analysis ↦ ok analysis
    ]
  ]

  unfoldable pub trigger_analysis : Text → World → Reply AiAnalysis × World
  trigger_analysis attempt_id w = elim (get w.attempts attempt_id) [
    | none ↦ (error 404, w)
    | some attempt ↦
        if is_failure attempt.status
        then answer_analysis (analyze_attempt attempt_id attempt w)
        else (error 400, w)
  ]
