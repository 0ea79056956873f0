-- ===== src/Execution/Decision.antt =====
-- How the result of `run_pipeline` follows from the results of the steps.
use ci_system.Prelude.{
  ◌≡◌, ◌≢◌, ◌⊎◌, refl, ap, sym, ◌∙◌, inl, inr, false, codes, Text, none, List, [], ◌++◌, Bool-cases,
  ℕ,
}
use ci_system.Prelude.Int.{pos}
use ci_system.Lease.{is_zero}
use ci_system.Pipeline.{Pipeline, PipelineStep}
use ci_system.Runtime.{Runtime}
use ci_system.Agent.Docker.{Docker}
use ci_system.Agent.Executor.{
  ExecutionResult, Outcome, returned, raised, unfinished, Session, exec, infra_failure,
}
use ci_system.Agent.Steps.{run_in_container, run_steps, run_pipeline, run_options, checkout_cmd}
use ci_system.Execution.Cases.{
  Attempted-cases, is_done, is_error, is_broken, Outcome-cases, has_returned, has_raised,
  is_unfinished,
}
use ci_system.Execution.Rule.{clean_up-rule}
use ci_system.Execution.Verdicts.{explain, Matches, Explained, exec-Honest, run_each-Explained}

-- No step ran, and the server may try the job again.
pub record NotStarted (r : ExecutionResult) : Type 0 where
  pub no_results : r.step_results ≡ []
  pub retryable : r.is_permanent_failure ≡ false
  pub fails : is_zero r.exit_code ≡ false
  pub explained : r.infra_error ≢ none

abbrev pub Judged : List PipelineStep → ExecutionResult → Type 0
Judged steps r = Matches steps r.step_results × (r ≡ explain steps r.step_results r.step_results)

abbrev pub Explains : List PipelineStep → Outcome ExecutionResult → Type 0
Explains steps (returned r) = NotStarted r ⊎ Judged steps r
Explains steps raised = Unit
Explains steps unfinished = Unit

Explained-Explains :
    (steps : List PipelineStep) (o : Outcome ExecutionResult)
    → Explained steps [] o
    → Explains steps o
Explained-Explains steps (returned r) (ran, all, fits, rule) =
    inr (rw all fits, rule ∙ ap (λ l. explain steps l r.step_results) (sym all))
Explained-Explains steps raised h = tt
Explained-Explains steps unfinished h = tt

-- The daemon fails before the first command.
start_failed :
    (steps : List PipelineStep) (message : Text)
    → Explains steps (returned (infra_failure (pos 1) none [] message))
start_failed steps message =
    inl (record { no_results = refl; retryable = refl; fails = refl; explained = λ h. cc })

module _ ⦃rt : Runtime⦄ ⦃dk : Docker⦄ {C : Type 0} (on_log : Text → C → C) where
  run_in_container-Explains :
      (container : Text) (p : Pipeline) (repo_url commit_sha : Text) (deadline : ℕ) (s : Session C)
      → Explains p.steps (run_in_container on_log container p repo_url commit_sha deadline s).0
  unfolding run_in_container
  run_in_container-Explains container p repo_url commit_sha deadline s =
      let cmd = checkout_cmd repo_url commit_sha in
      let out = exec on_log container cmd (codes "checkout") deadline s in
      let honest = exec-Honest on_log container cmd (codes "checkout") deadline s in
      elim (Outcome-cases out.0) [
        | has_raised e ↦ rw (run_in_container, e) tt
        | is_unfinished e ↦ rw (run_in_container, e) tt
        | has_returned (ok, code) e ↦
            let zero_code = rw e at honest in
            elim (Bool-cases ok) [
              | inr failing ↦
                  rw (run_in_container, e)
                    (rw failing (
                      inl (record {
                        no_results = refl;
                        retryable = refl;
                        fails = sym zero_code ∙ failing;
                        explained = λ h. cc;
                      })))
              | inl passing ↦
                  rw (run_in_container, e)
                    (rw passing (
                      Explained-Explains p.steps _
                        (run_each-Explained on_log container deadline p.steps [] out.1)))
            ]
      ]

  -- Every outcome of `run_pipeline`.
  pub run_pipeline-Explains :
      (p : Pipeline) (repo_url commit_sha attempt_id : Text) (s : Session C)
      → Explains p.steps (run_pipeline on_log p repo_url commit_sha attempt_id s).0
  unfolding run_pipeline run_steps
  run_pipeline-Explains p repo_url commit_sha attempt_id s =
      let pulled = dk.pull p.image s.daemon in
      let started = dk.run (run_options p attempt_id) pulled.1 in
      elim (Attempted-cases pulled.0) [
        | is_error m e ↦
            rw (run_pipeline, e) (start_failed p.steps (codes "image_pull_failed: " ++ m))
        | is_broken e ↦ rw (run_pipeline, e) tt
        | is_done a e ↦ elim (Attempted-cases started.0) [
          | is_error m f ↦
              rw (run_pipeline, e)
                (rw (run_steps, f) (start_failed p.steps (codes "container_start_failed: " ++ m)))
          | is_broken f ↦ rw (run_pipeline, e) (rw (run_steps, f) tt)
          | is_done c f ↦
              rw (run_pipeline, e)
                (rw (run_steps, f)
                  (clean_up-rule (Explains p.steps) c _ tt
                    (run_in_container-Explains c p repo_url commit_sha _ _)))
        ]
      ]
