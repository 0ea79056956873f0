-- ===== src/Execution/Returns.antt =====
-- The loops of the executor end.
use ci_system.Prelude.{
  ℕ, zero, suc, ◌+◌, ◌-◌, ◌≤◌, ◌≡◌, ◌≢◌, refl, inl, inr, true, Text, codes, none, List, [], ◌∷◌,
  ◌++◌, arith, Bool-cases, Option-cases, leb, ltb,
}
use ci_system.Pipeline.{Pipeline, PipelineStep}
use ci_system.Runtime.{Runtime}
use ci_system.Agent.Docker.{Docker, Stream}
use ci_system.Agent.Executor.{
  StepResult, unfinished, Reader, reading, Session, log, line, step_command, log_bytes, next_item,
  drain, enough, inspect, watch, exec, shell,
}
use ci_system.Agent.Steps.{
  checkout_cmd, run_step, run_each, run_in_container, run_steps, run_pipeline, run_options,
}
use ci_system.Execution.Rule.{clean_up-rule}
use ci_system.Execution.Cases.{
  Attempted-cases, is_done, is_error, is_broken, Outcome-cases, has_returned, has_raised,
  is_unfinished,
}

module _ ⦃dk : Docker⦄ {C : Type 0} (on_log : Text → C → C) where
  log_bytes-readings : (b : List ℕ) (s : Session C) → (log_bytes on_log b s).readings ≡ s.readings
  unfolding log_bytes
  log_bytes-readings [] s = refl
  log_bytes-readings (b ∷ bs) s = refl

  -- A time that has passed stays passed.
  pub passed : (deadline n : ℕ) → dk.passes deadline ≤ n → leb deadline (dk.monotonic n) ≡ true
  passed deadline n h =
      ground (arith, dk.monotonic-passes deadline, dk.monotonic_mono (dk.passes deadline) n)

  drain-returns :
      (fuel : ℕ) (stream : Stream) (reader : Reader) (deadline : ℕ) (step : Text) (s : Session C)
      → dk.passes deadline ≤ s.readings + fuel
      → (drain on_log (suc fuel) stream reader deadline step s).0 ≢ none
  unfolding drain
  drain-returns zero stream reader deadline step s h =
      rw (drain, passed deadline s.readings (omega arith)) (λ e. cc)
  drain-returns (suc fuel) stream reader deadline step s h =
      let s' : Session C = record s { readings = suc s.readings } in
      elim (Bool-cases (leb deadline (dk.monotonic s.readings))) [
        | inl late ↦ rw (drain, late) (λ e. cc)
        | inr early ↦ elim (Bool-cases (dk.arrives s.readings)) [
          | inr empty ↦
              rw (drain, early)
                (rw empty (drain-returns fuel stream reader deadline step s' (omega arith)))
          | inl here ↦ elim (Option-cases (next_item stream reader).0) [
            | inl ended ↦ rw (drain, early) (rw here (rw ended (λ e. cc)))
            | inr (bytes, e) ↦
                rw (drain, early)
                  (rw here (
                    rw e (
                      drain-returns fuel stream (next_item stream reader).1 deadline step
                        (log_bytes on_log bytes s') (omega (arith, log_bytes-readings bytes s')))))
          ]
        ]
      ]

  inspect-returns :
      (exec_id step : Text) (s : Session C) → (inspect on_log exec_id step s).0 ≢ unfinished
  unfolding inspect
  inspect-returns exec_id step s = elim (Attempted-cases (dk.exec_inspect exec_id s.daemon).0) [
    | is_done a e ↦ rw (inspect, e) (λ h. cc)
    | is_error m e ↦ rw (inspect, e) (λ h. cc)
    | is_broken e ↦ rw (inspect, e) (λ h. cc)
  ]

  watch-returns :
      (exec_id : Text) (stream : Stream) (step : Text) (deadline : ℕ) (s : Session C)
      → (watch on_log exec_id stream step deadline s).0 ≢ unfinished
  unfolding watch
  watch-returns exec_id stream step deadline s =
      let drained = drain on_log (enough on_log deadline s) stream (reading 0) deadline step s in
      elim (Option-cases drained.0) [
        | inl e ↦ absurd (
            drain-returns (dk.passes deadline - s.readings) stream (reading 0) deadline step s
              (omega arith) e)
        | inr (in_time, e) ↦ elim (Bool-cases in_time) [
          | inl yes_it_is ↦ rw (watch, e) (rw yes_it_is (inspect-returns exec_id step drained.1))
          | inr late ↦ rw (watch, e) (rw late (λ h. cc))
        ]
      ]

  pub exec-returns :
      (container cmd step : Text) (deadline : ℕ) (s : Session C)
      → (exec on_log container cmd step deadline s).0 ≢ unfinished
  unfolding exec
  exec-returns container cmd step deadline s =
      let created = dk.exec_create container (shell cmd) s.daemon in
      elim (Attempted-cases created.0) [
        | is_error m e ↦ rw (exec, e) (λ h. cc)
        | is_broken e ↦ rw (exec, e) (λ h. cc)
        | is_done exec_id e ↦
            let started = dk.exec_start exec_id created.1 in
            elim (Attempted-cases started.0) [
              | is_error m f ↦ rw (exec, e) (rw f (λ h. cc))
              | is_broken f ↦ rw (exec, e) (rw f (λ h. cc))
              | is_done stream f ↦
                  rw (exec, e)
                    (rw f (
                      watch-returns exec_id stream step deadline (record s { daemon = started.1 })))
            ]
      ]

  pub run_step-returns :
      (container : Text) (deadline : ℕ) (step : PipelineStep) (s : Session C)
      → (run_step on_log container deadline step s).0 ≢ unfinished
  unfolding run_step
  run_step-returns container deadline step s =
      let s' : Session C =
        log on_log (10 ∷ (codes "$ " ++ line step.run))
          (record s { readings = suc (suc s.readings) }) in
      elim (Outcome-cases (exec on_log container (step_command step.run) step.name deadline s').0) [
        | has_returned a e ↦ rw (run_step, e) (λ h. cc)
        | has_raised e ↦ rw (run_step, e) (λ h. cc)
        | is_unfinished e ↦
            absurd (exec-returns container (step_command step.run) step.name deadline s' e)
      ]

  pub run_each-returns :
      (container : Text) (deadline : ℕ) (steps : List PipelineStep) (results : List StepResult)
      (s : Session C)
      → (run_each on_log container deadline steps results s).0 ≢ unfinished
  unfolding run_each
  run_each-returns container deadline [] results s = λ h. cc
  run_each-returns container deadline (step ∷ rest) results s =
      let ran = run_step on_log container deadline step s in
      elim (Bool-cases (ltb deadline (dk.monotonic (suc s.readings)))) [
        | inl late ↦ rw (run_each, late) (λ h. cc)
        | inr early ↦ elim (Outcome-cases ran.0) [
          | has_raised e ↦ rw (run_each, early) (rw e (λ h. cc))
          | is_unfinished e ↦ absurd (run_step-returns container deadline step s e)
          | has_returned (ok, result) e ↦ elim (Bool-cases ok) [
            | inl passing ↦
                rw (run_each, early)
                  (rw e (
                    rw passing
                      (run_each-returns container deadline rest (results ++ (result ∷ [])) ran.1)))
            | inr failing ↦ elim (Bool-cases step.allow_failure) [
              | inl allowed ↦
                  rw (run_each, early)
                    (rw e (rw failing (rw allowed (run_each-returns container deadline rest _ _))))
              | inr final ↦ rw (run_each, early) (rw e (rw failing (rw final (λ h. cc))))
            ]
          ]
        ]
      ]

module _ ⦃rt : Runtime⦄ ⦃dk : Docker⦄ {C : Type 0} (on_log : Text → C → C) where
  run_in_container-returns :
      (container : Text) (p : Pipeline) (repo_url commit_sha : Text) (deadline : ℕ) (s : Session C)
      → (run_in_container on_log container p repo_url commit_sha deadline s).0 ≢ unfinished
  unfolding run_in_container
  run_in_container-returns container p repo_url commit_sha deadline s =
      let cmd = checkout_cmd repo_url commit_sha in
      let out = exec on_log container cmd (codes "checkout") deadline s in
      elim (Outcome-cases out.0) [
        | has_raised e ↦ rw (run_in_container, e) (λ h. cc)
        | is_unfinished e ↦
            absurd (exec-returns on_log container cmd (codes "checkout") deadline s e)
        | has_returned (ok, code) e ↦ elim (Bool-cases ok) [
          | inr failing ↦ rw (run_in_container, e) (rw failing (λ h. cc))
          | inl passing ↦
              rw (run_in_container, e)
                (rw passing (run_each-returns on_log container deadline p.steps [] out.1))
        ]
      ]

  -- Where the calls of the Docker client return, an execution of a pipeline ends, however long its
  -- commands run and whatever they print: it returns a result, or an exception other than a
  -- `DockerException` leaves it.
  pub run_pipeline_ends :
      (p : Pipeline) (repo_url commit_sha attempt_id : Text) (s : Session C)
      → (run_pipeline on_log p repo_url commit_sha attempt_id s).0 ≢ unfinished
  unfolding run_pipeline run_steps
  run_pipeline_ends p repo_url commit_sha attempt_id s =
      let pulled = dk.pull p.image s.daemon in
      elim (Attempted-cases pulled.0) [
        | is_error m e ↦ rw (run_pipeline, e) (λ h. cc)
        | is_broken e ↦ rw (run_pipeline, e) (λ h. cc)
        | is_done a e ↦
            let started = dk.run (run_options p attempt_id) pulled.1 in
            elim (Attempted-cases started.0) [
              | is_error m f ↦ rw (run_pipeline, e) (rw (run_steps, f) (λ h. cc))
              | is_broken f ↦ rw (run_pipeline, e) (rw (run_steps, f) (λ h. cc))
              | is_done container f ↦
                  rw (run_pipeline, e)
                    (rw (run_steps, f)
                      (clean_up-rule (λ o. o ≢ unfinished) container _ (λ x. cc)
                        (run_in_container-returns container p repo_url commit_sha _ _)))
            ]
      ]
