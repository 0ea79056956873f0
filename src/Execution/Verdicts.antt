-- ===== src/Execution/Verdicts.antt =====
-- How the result of an execution follows from the results of its steps.
use ci_system.Prelude.{
  ℕ, suc, ◌≡◌, ◌⊎◌, refl, sym, ◌∙◌, inl, inr, Bool, true, false, ◌||◌, codes, Text, some, List, [],
  ◌∷◌, ◌++◌, append-nil, append_assoc, arith, Bool-cases, Option-cases, ltb, if◌then◌else◌,
}
use ci_system.Prelude.Int.{ℤ, pos}
use ci_system.Lease.{is_zero}
use ci_system.Pipeline.{PipelineStep}
use ci_system.Agent.Docker.{Docker, Stream}
use ci_system.Agent.Executor.{
  StepResult, ExecutionResult, Outcome, returned, raised, unfinished, reading, Session, log, drain,
  enough, inspect, watch, exec, shell, line, step_command, succeeded, infra_failure,
  permanent_failure,
}
use ci_system.Agent.Steps.{run_step, run_each}
use ci_system.Execution.Cases.{
  Attempted-cases, is_done, is_error, is_broken, Outcome-cases, has_returned, has_raised,
  is_unfinished,
}

-- What the loop makes of the results: the first step that fails and may not fail decides for good; steps that did
-- not run for want of time leave a failure of the infrastructure.
unfoldable pub explain : List PipelineStep → List StepResult → List StepResult → ExecutionResult
explain [] ran all = succeeded all
explain (step ∷ steps) [] all = infra_failure (pos 124) (some step.name) all (codes "timeout")
explain (step ∷ steps) (result ∷ ran) all =
    if is_zero result.exit_code || step.allow_failure
    then explain steps ran all
    else permanent_failure result.exit_code step.name all

-- The results are those of the first steps, in their order, and none follows a failure of a step
-- that may not fail.
abbrev pub Matches : List PipelineStep → List StepResult → Type 0
Matches steps [] = Unit
Matches [] (result ∷ ran) = ⊥
Matches (step ∷ steps) (result ∷ ran) =
    (result.name ≡ step.name)
    × (((is_zero result.exit_code || step.allow_failure) ≡ true) ⊎ (ran ≡ []))
    × Matches steps ran

-- An exit code is reported as a success when it is 0.
abbrev pub Honest : Outcome (Bool × ℤ) → Type 0
Honest (returned (ok, code)) = ok ≡ is_zero code
Honest raised = Unit
Honest unfinished = Unit

abbrev pub HonestStep : PipelineStep → Outcome (Bool × StepResult) → Type 0
HonestStep step (returned (ok, result)) =
    (ok ≡ is_zero result.exit_code) × (result.name ≡ step.name)
HonestStep step raised = Unit
HonestStep step unfinished = Unit

module _ ⦃dk : Docker⦄ {C : Type 0} (on_log : Text → C → C) where
  inspect-Honest : (exec_id step : Text) (s : Session C) → Honest (inspect on_log exec_id step s).0
  unfolding inspect
  inspect-Honest exec_id step s = elim (Attempted-cases (dk.exec_inspect exec_id s.daemon).0) [
    | is_done a e ↦ rw (inspect, e) refl
    | is_error m e ↦ rw (inspect, e) refl
    | is_broken e ↦ rw (inspect, e) tt
  ]

  watch-Honest :
      (exec_id : Text) (stream : Stream) (step : Text) (deadline : ℕ) (s : Session C)
      → Honest (watch on_log exec_id stream step deadline s).0
  unfolding watch
  watch-Honest exec_id stream step deadline s =
      let drained = drain on_log (enough on_log deadline s) stream (reading 0) deadline step s in
      elim (Option-cases drained.0) [
        | inl e ↦ rw (watch, e) tt
        | inr (in_time, e) ↦ elim (Bool-cases in_time) [
          | inl ended ↦ rw (watch, e) (rw ended (inspect-Honest exec_id step drained.1))
          | inr late ↦ rw (watch, e) (rw late refl)
        ]
      ]

  pub exec-Honest :
      (container cmd step : Text) (deadline : ℕ) (s : Session C)
      → Honest (exec on_log container cmd step deadline s).0
  unfolding exec
  exec-Honest container cmd step deadline s =
      let created = dk.exec_create container (shell cmd) s.daemon in
      elim (Attempted-cases created.0) [
        | is_error m e ↦ rw (exec, e) refl
        | is_broken e ↦ rw (exec, e) tt
        | is_done exec_id e ↦
            let started = dk.exec_start exec_id created.1 in
            elim (Attempted-cases started.0) [
              | is_error m f ↦ rw (exec, e) (rw f refl)
              | is_broken f ↦ rw (exec, e) (rw f tt)
              | is_done stream f ↦
                  rw (exec, e)
                    (rw f
                      (watch-Honest exec_id stream step deadline (record s { daemon = started.1 })))
            ]
      ]

  pub run_step-Honest :
      (container : Text) (deadline : ℕ) (step : PipelineStep) (s : Session C)
      → HonestStep step (run_step on_log container deadline step s).0
  unfolding run_step
  run_step-Honest container deadline step s =
      let s' : Session C =
        log on_log (10 ∷ (codes "$ " ++ line step.run))
          (record s { readings = suc (suc s.readings) }) in
      let cmd = step_command step.run in
      let honest = exec-Honest container cmd step.name deadline s' in
      elim (Outcome-cases (exec on_log container cmd step.name deadline s').0) [
        | has_returned (ok, code) e ↦ rw (run_step, e) (rw e at honest, refl)
        | has_raised e ↦ rw (run_step, e) tt
        | is_unfinished e ↦ rw (run_step, e) tt
      ]

-- The result is the one that the rule gives for the results of the steps that ran.
abbrev pub Explained : List PipelineStep → List StepResult → Outcome ExecutionResult → Type 0
Explained steps results (returned r) =
    (ran : List StepResult) × (r.step_results ≡ results ++ ran)
    × Matches steps ran
    × (r ≡ explain steps ran r.step_results)
Explained steps results raised = Unit
Explained steps results unfinished = Unit

-- A step that passes, or may fail, in front of the others.
go_on :
    (step : PipelineStep) (rest : List PipelineStep) (results : List StepResult) (x : StepResult)
    (o : Outcome ExecutionResult)
    → x.name ≡ step.name
    → (is_zero x.exit_code || step.allow_failure) ≡ true
    → Explained rest (results ++ (x ∷ [])) o
    → Explained (step ∷ rest) results o
unfolding explain
go_on step rest results x (returned r) name passes (ran, all, fits, rule) =
    (x ∷ ran, all ∙ append_assoc results (x ∷ []) ran, (name, inl passes, fits), rw passes rule)
go_on step rest results x raised name passes h = tt
go_on step rest results x unfinished name passes h = tt

-- A step that fails, and the others if it may.
settle {ℓ} :
    {S : Type ℓ} (step : PipelineStep) (rest : List PipelineStep) (results : List StepResult)
    (x : StepResult) (next : Outcome ExecutionResult × S) (s : S)
    → x.name ≡ step.name
    → is_zero x.exit_code ≡ false
    → Explained rest (results ++ (x ∷ [])) next.0
    → (may_fail : Bool) → step.allow_failure ≡ may_fail
    → (let out : Outcome ExecutionResult × S = elim may_fail [
      | true ↦ next
      | false ↦ (returned (permanent_failure x.exit_code step.name (results ++ (x ∷ []))), s)
    ] in
        Explained (step ∷ rest) results out.0)
unfolding explain
settle step rest results x next s name fails h true e =
    go_on step rest results x next.0 name (ground arith) h
settle step rest results x next s name fails h false e =
    let decides : (is_zero x.exit_code || step.allow_failure) ≡ false = ground arith in
    (x ∷ [], refl, (name, inr refl, tt), rw decides refl)

module _ ⦃dk : Docker⦄ {C : Type 0} (on_log : Text → C → C) where
  pub run_each-Explained :
      (container : Text) (deadline : ℕ) (steps : List PipelineStep) (results : List StepResult)
      (s : Session C)
      → Explained steps results (run_each on_log container deadline steps results s).0
  unfolding run_each explain
  run_each-Explained container deadline [] results s = ([], sym (append-nil results), tt, refl)
  run_each-Explained container deadline (step ∷ rest) results s =
      let ran = run_step on_log container deadline step s in
      let honest = run_step-Honest on_log container deadline step s in
      elim (Bool-cases (ltb deadline (dk.monotonic (suc s.readings)))) [
        | inl late ↦ rw (run_each, late) ([], sym (append-nil results), tt, refl)
        | inr early ↦ elim (Outcome-cases ran.0) [
          | has_raised e ↦ rw (run_each, early) (rw e tt)
          | is_unfinished e ↦ rw (run_each, early) (rw e tt)
          | has_returned (ok, x) e ↦
              let (zero_code, name) = rw e at honest in
              elim (Bool-cases ok) [
                | inl passing ↦
                    rw (run_each, early)
                      (rw e (
                        rw passing (
                          go_on step rest results x _ name (ground arith) (
                            run_each-Explained container deadline rest (results ++ (x ∷ []))
                              ran.1))))
                | inr failing ↦
                    rw (run_each, early)
                      (rw e (
                        rw failing (
                          settle step rest results x _ ran.1 name (ground arith)
                            (run_each-Explained container deadline rest (results ++ (x ∷ [])) _)
                            step.allow_failure refl)))
              ]
        ]
      ]
