-- ===== src/Consistency/Frames.antt =====
-- Requests that leave the jobs and the attempts alone: the analysis of a failure, the routes of
-- workers and projects.
use ci_system.Prelude.{refl, inl, inr, Text, some, arith, Option-cases, Bool-cases}
use ci_system.Models.{JobAttempt, is_failure}
use ci_system.Prelude.Int.{ℤ}
use ci_system.Runtime.{Runtime, config, get}
use ci_system.World.{World}
use ci_system.Consistency.Later.{SameJobs}
use ci_system.Ai.Analyzer.{
  returned, raised, pending_analysis, provider_name, Provided, Provider, provided, provider_error,
  Verdict, valid, rejected, type_error, parse_and_validate, get_provider, Analyzed, analyze_attempt,
  ask_provider, record_answer, record_verdict,
}
use ci_system.Api.Attempts.{run_analysis}
use ci_system.Api.Workers.{register_worker, heartbeat}
use ci_system.Api.Projects.{ProjectCreate, create_project, update_pipeline}
use ci_system.Api.Jobs.{trigger_analysis}
use ci_system.Models.{AiAnalysis}
use ci_system.Ai.Schemas.{FailureAnalysisRequest}
use ci_system.Api.Jobs.{answer_analysis}

module _ ⦃rt : Runtime⦄ where
  record_verdict-SameJobs :
      (k raw : Text) (r : AiAnalysis) (v : Verdict) (w : World)
      → SameJobs w (record_verdict k r raw v w).1
  unfolding record_verdict
  record_verdict-SameJobs k raw r (valid x) w = (refl, refl, omega arith)
  record_verdict-SameJobs k raw r rejected w = (refl, refl, omega arith)
  record_verdict-SameJobs k raw r type_error w = (refl, refl, omega arith)

  record_answer-SameJobs :
      (k : Text) (r : AiAnalysis) (p : Provided Text) (w : World)
      → SameJobs w (record_answer k r p w).1
  unfolding record_answer
  record_answer-SameJobs k r (provided raw) w =
      record_verdict-SameJobs k raw r (parse_and_validate raw) w
  record_answer-SameJobs k r (provider_error m) w = (refl, refl, omega arith)

  ask_provider-SameJobs :
      (k : Text) (q : FailureAnalysisRequest) (p : Provided Provider) (w : World)
      → SameJobs w (ask_provider k q p w).1
  unfolding ask_provider
  ask_provider-SameJobs k q (provided p) w = record_answer-SameJobs k asked _ w
    where
      asked : AiAnalysis
      asked = record pending_analysis {
        provider = some (provider_name p);
        model = some config.ai_model;
      }
  ask_provider-SameJobs k q (provider_error m) w = (refl, refl, omega arith)

  -- An analysis touches no job and no attempt, whatever the provider answers.
  pub analyze_attempt-SameJobs :
      (k : Text) (a : JobAttempt) (w : World) → SameJobs w (analyze_attempt k a w).1
  unfolding analyze_attempt
  analyze_attempt-SameJobs k a w = elim (Option-cases (get w.analyses k)) [
    | inr (r, e) ↦ rw (analyze_attempt, e) (refl, refl, omega arith)
    | inl e ↦ elim (Option-cases (get w.jobs a.job_id)) [
      | inl f ↦ rw (analyze_attempt, e) (rw f (refl, refl, omega arith))
      | inr (j, f) ↦ elim (Option-cases (get w.projects j.project_id)) [
        | inl g ↦ rw (analyze_attempt, e) (rw f (rw g (refl, refl, omega arith)))
        | inr (p, g) ↦
            rw (analyze_attempt, e) (rw f (rw g (ask_provider-SameJobs k _ get_provider w)))
      ]
    ]
  ]

  pub run_analysis-SameJobs : (k : Text) (w : World) → SameJobs w (run_analysis k w)
  unfolding run_analysis
  run_analysis-SameJobs k w = elim (Option-cases (get w.attempts k)) [
    | inl e ↦ rw (run_analysis, e) (refl, refl, omega arith)
    | inr (a, e) ↦ rw (run_analysis, e) (analyze_attempt-SameJobs k a w)
  ]

  pub trigger_analysis-SameJobs : (k : Text) (w : World) → SameJobs w (trigger_analysis k w).1
  unfolding trigger_analysis
  trigger_analysis-SameJobs k w = elim (Option-cases (get w.attempts k)) [
    | inl e ↦ rw (trigger_analysis, e) (refl, refl, omega arith)
    | inr (a, e) ↦ elim (Bool-cases (is_failure a.status)) [
      | inr f ↦ rw (trigger_analysis, e) (rw f (refl, refl, omega arith))
      | inl f ↦
          rw (trigger_analysis, e)
            (rw f (answered (analyze_attempt k a w) (analyze_attempt-SameJobs k a w)))
    ]
  ]
    where
      answered : (r : Analyzed × World) → SameJobs w r.1 → SameJobs w (answer_analysis r).1
      answered (returned x, w') h = h
      answered (raised, w') h = h

  pub create_project-SameJobs : (p : ProjectCreate) (w : World) → SameJobs w (create_project p w).1
  unfolding create_project
  create_project-SameJobs p w = ground arith

  pub update_pipeline-SameJobs :
      (k yaml : Text) (w : World) → SameJobs w (update_pipeline k yaml w).1
  unfolding update_pipeline
  update_pipeline-SameJobs k yaml w = ground arith

  pub register_worker-SameJobs :
      (name : Text) (n : ℤ) (w : World) → SameJobs w (register_worker name n w).1
  unfolding register_worker
  register_worker-SameJobs name n w = (refl, refl, omega arith)

  pub heartbeat-SameJobs : (k : Text) (w : World) → SameJobs w (heartbeat k w).1
  unfolding heartbeat
  heartbeat-SameJobs k w = ground arith
