-- ===== src/Execution/Passing.antt =====
-- That an execution with the exit code 0 is the work of the daemon.
use ci_system.Prelude.{
  ℕ, suc, ◌≡◌, refl, sym, ◌∙◌, inl, inr, Bool, true, false, codes, Text, Option, some, List, [],
  ◌∷◌, ◌++◌, arith, Bool-cases, ltb,
}
use ci_system.Prelude.Int.{ℤ, pos}
use ci_system.Lease.{is_zero}
use ci_system.Pipeline.{Pipeline, PipelineStep}
use ci_system.Runtime.{Runtime}
use ci_system.Agent.Docker.{Docker}
use ci_system.Agent.Executor.{
  StepResult, ExecutionResult, Outcome, returned, Session, log, exec, line, step_command,
  infra_failure,
}
use ci_system.Agent.Steps.{
  run_step, run_each, run_in_container, run_steps, run_pipeline, run_options, checkout_cmd,
  clean_up,
}
use ci_system.Execution.Cases.{
  Attempted-cases, is_done, is_error, is_broken, Outcome-cases, has_returned, has_raised,
  is_unfinished,
}
use ci_system.Execution.Rule.{clean_up-rule}
use ci_system.Execution.Verdicts.{exec-Honest, run_step-Honest}
use ci_system.Execution.Evidence.{Executed, Ran, all_ran, passed, allowed, Carried, Tried}
use ci_system.Execution.Tracing.{exec-passed, exec-Tried}

module _ ⦃dk : Docker⦄ {C : Type 0} (on_log : Text → C → C) where
  exec_failed_code :
      (container cmd step : Text) (deadline : ℕ) (s : Session C) (code : ℤ)
      → (exec on_log container cmd step deadline s).0 ≡ returned (false, code)
      → is_zero code ≡ false
  exec_failed_code container cmd step deadline s code h =
      let honest = exec-Honest on_log container cmd step deadline s in sym (rw h at honest)

  run_step-passed :
      (container : Text) (deadline : ℕ) (step : PipelineStep) (s : Session C) (x : StepResult)
      → (run_step on_log container deadline step s).0 ≡ returned (true, x)
      → Executed container
          (step_command step.run)
          s.daemon
          (run_step on_log container deadline step s).1.daemon
  unfolding run_step
  run_step-passed container deadline step s x h =
      let s' : Session C =
        log on_log (10 ∷ (codes "$ " ++ line step.run))
          (record s { readings = suc (suc s.readings) }) in
      let out = exec on_log container (step_command step.run) step.name deadline s' in
      elim (Outcome-cases out.0) [
        | has_raised e ↦ absurd (let bad = rw (run_step, e) at h in cc)
        | is_unfinished e ↦ absurd (let bad = rw (run_step, e) at h in cc)
        | has_returned (ok, code) e ↦
            let passes : ok ≡ true = step_flag (rw (run_step, e) at h) in
            rw (run_step, e)
              (exec-passed on_log container (step_command step.run) step.name deadline s' code
                (rw passes at e))
      ]
    where
      step_flag :
          {a b : Bool} {x y : StepResult}
          → ◌≡◌ {A = Outcome (Bool × StepResult)} (returned (a, x)) (returned (b, y))
          → a ≡ b
      step_flag h = cc

  run_step-Tried :
      (container : Text) (deadline : ℕ) (step : PipelineStep) (s : Session C)
      → Tried container
          (step_command step.run)
          s.daemon
          (run_step on_log container deadline step s).1.daemon
  unfolding run_step
  run_step-Tried container deadline step s =
      let s' : Session C =
        log on_log (10 ∷ (codes "$ " ++ line step.run))
          (record s { readings = suc (suc s.readings) }) in
      let out = exec on_log container (step_command step.run) step.name deadline s' in
      let tried = exec-Tried on_log container (step_command step.run) step.name deadline s' in
      elim (Outcome-cases out.0) [
        | has_raised e ↦ rw (run_step, e) tried
        | is_unfinished e ↦ rw (run_step, e) tried
        | has_returned a e ↦ rw (run_step, e) tried
      ]

  run_each-Ran :
      (container : Text) (deadline : ℕ) (steps : List PipelineStep) (results : List StepResult)
      (s : Session C) (r : ExecutionResult)
      → (run_each on_log container deadline steps results s).0 ≡ returned r
      → is_zero r.exit_code ≡ true
      → (d : dk.Daemon) × Ran container steps s.daemon d
  unfolding run_each
  run_each-Ran container deadline [] results s r h success = (s.daemon, all_ran)
  run_each-Ran container deadline (step ∷ rest) results s r h success =
      let ran = run_step on_log container deadline step s in
      let honest = run_step-Honest on_log container deadline step s in
      elim (Bool-cases (ltb deadline (dk.monotonic (suc s.readings)))) [
        | inl late ↦ absurd (not_zero (rw (run_each, late) at h) refl)
        | inr early ↦ elim (Outcome-cases ran.0) [
          | has_raised e ↦ absurd (let bad = rw e at (rw (run_each, early) at h) in cc)
          | is_unfinished e ↦ absurd (let bad = rw e at (rw (run_each, early) at h) in cc)
          | has_returned (ok, x) e ↦ elim (Bool-cases ok) [
            | inl passing ↦
                let (d, others) =
                  run_each-Ran container deadline rest (results ++ (x ∷ [])) ran.1 r
                    (rw passing at (rw e at (rw (run_each, early) at h))) success in
                (d, passed (run_step-passed container deadline step s x (rw passing at e)) others)
            | inr failing ↦ elim (Bool-cases step.allow_failure) [
              | inl may ↦
                  let (d, others) =
                    run_each-Ran container deadline rest (results ++ (x ∷ [])) _ r
                      (rw may at (rw failing at (rw e at (rw (run_each, early) at h)))) success in
                  (d, allowed may (run_step-Tried container deadline step s) others)
              | inr final ↦
                  let (same, name) = rw e at honest in
                  absurd (
                    not_zero (rw final at (rw failing at (rw e at (rw (run_each, early) at h))))
                      (sym same ∙ failing))
            ]
          ]
        ]
      ]
    where
      not_zero :
          {v : ExecutionResult}
          → ◌≡◌ {A = Outcome ExecutionResult} (returned v) (returned r)
          → is_zero v.exit_code ≡ false
          → ⊥
      not_zero {v = v} e z =
          let same : is_zero v.exit_code ≡ is_zero r.exit_code = cc in ground arith

module _ ⦃rt : Runtime⦄ ⦃dk : Docker⦄ {C : Type 0} (on_log : Text → C → C) where
  run_in_container-Ran :
      (container : Text) (p : Pipeline) (repo_url commit_sha : Text) (deadline : ℕ) (s : Session C)
      (r : ExecutionResult)
      → (run_in_container on_log container p repo_url commit_sha deadline s).0 ≡ returned r
      → is_zero r.exit_code ≡ true
      → (d e : dk.Daemon) × Executed container (checkout_cmd repo_url commit_sha) s.daemon d
        × Ran container p.steps d e
  unfolding run_in_container
  run_in_container-Ran container p repo_url commit_sha deadline s r h success =
      let cmd = checkout_cmd repo_url commit_sha in
      let out = exec on_log container cmd (codes "checkout") deadline s in
      elim (Outcome-cases out.0) [
        | has_raised e ↦ absurd (let bad = rw (run_in_container, e) at h in cc)
        | is_unfinished e ↦ absurd (let bad = rw (run_in_container, e) at h in cc)
        | has_returned (ok, code) e ↦ elim (Bool-cases ok) [
          | inl passing ↦
              let (d, steps) =
                run_each-Ran on_log container deadline p.steps [] out.1 r
                  (rw passing at (rw (run_in_container, e) at h)) success in
              (
                out.1.daemon,
                d,
                exec-passed on_log container cmd (codes "checkout") deadline s code
                    (rw passing at e),
                steps,
              )
          | inr failing ↦
              let nonzero =
                exec_failed_code on_log container cmd (codes "checkout") deadline s code
                  (rw failing at e) in
              absurd (failed code (rw failing at (rw (run_in_container, e) at h)) nonzero)
        ]
      ]
    where
      failed :
          (code : ℤ)
          → returned (infra_failure code (some (codes "checkout")) [] (codes "checkout_failed"))
            ≡ returned r
          → is_zero code ≡ false
          → ⊥
      failed code e z = let same : is_zero code ≡ is_zero r.exit_code = cc in ground arith

  -- The exit code 0 is the work of the daemon.
  pub success-Carried :
      (p : Pipeline) (repo_url commit_sha attempt_id : Text) (s : Session C) (r : ExecutionResult)
      → (run_pipeline on_log p repo_url commit_sha attempt_id s).0 ≡ returned r
      → is_zero r.exit_code ≡ true
      → Carried p repo_url commit_sha attempt_id s.daemon
  unfolding run_pipeline run_steps
  success-Carried p repo_url commit_sha attempt_id s r h success =
      let pulled = dk.pull p.image s.daemon in
      let started = dk.run (run_options p attempt_id) pulled.1 in
      elim (Attempted-cases pulled.0) [
        | is_error m e ↦ absurd (start (rw (run_pipeline, e) at h))
        | is_broken e ↦ absurd (let bad = rw (run_pipeline, e) at h in cc)
        | is_done a e ↦ elim (Attempted-cases started.0) [
          | is_error m f ↦ absurd (start (rw (run_steps, f) at (rw (run_pipeline, e) at h)))
          | is_broken f ↦ absurd (let bad = rw (run_steps, f) at (rw (run_pipeline, e) at h) in cc)
          | is_done c f ↦
              let ran = clean_up-same c _ r (rw (run_steps, f) at (rw (run_pipeline, e) at h)) in
              let (d, d', checked_out, steps) =
                run_in_container-Ran c p repo_url commit_sha _ _ r ran success in
              record {
                container = c;
                fetched = d;
                last = d';
                started = f;
                checked_out = checked_out;
                steps_ran = steps;
              }
        ]
      ]
    where
      start :
          {step : Option Text} {m : Text}
          → returned (infra_failure (pos 1) step [] m) ≡ returned r
          → ⊥
      start e = let same : is_zero (pos 1) ≡ is_zero r.exit_code = cc in cc

      clean_up-same :
          (c : Text) (o : Outcome ExecutionResult × Session C) (r : ExecutionResult)
          → (clean_up c o).0 ≡ returned r
          → o.0 ≡ returned r
      clean_up-same c o r h =
          clean_up-rule (λ x. x ≡ returned r → o.0 ≡ returned r) c o (λ x. cc) (λ x. x) h
