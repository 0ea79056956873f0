-- ===== src/Execution/Rule.antt =====
-- What holds of a session all through an execution.
use ci_system.Prelude.{
  ℕ, zero, suc, inl, inr, codes, Text, List, [], ◌∷◌, ◌++◌, Bool-cases, Option-cases, leb, ltb,
}
use ci_system.Pipeline.{Pipeline, PipelineStep}
use ci_system.Runtime.{Runtime}
use ci_system.Agent.Docker.{Docker, Stream}
use ci_system.Agent.Executor.{
  StepResult, ExecutionResult, Outcome, raised, Reader, reading, Session, log, log_bytes, next_item,
  drain, enough, inspect, watch, exec, shell, line, step_command,
}
use ci_system.Agent.Steps.{run_step, run_each, clean_up, run_in_container, checkout_cmd}
use ci_system.Execution.Cases.{
  Attempted-cases, is_done, is_error, is_broken, Outcome-cases, has_returned, has_raised,
  is_unfinished,
}

module _ ⦃dk : Docker⦄ {C : Type 0} (on_log : Text → C → C) where
  -- The predicate is kept by a message, a reading of the clock, and the calls that execute a command.
  pub record Keeps (P : Session C → Type 0) : Type 0 where
    pub logs : (text : Text) (s : Session C) → P s → P (log on_log text s)
    pub reads : (n : ℕ) (s : Session C) → P s → P (record s { readings = n })
    pub creates :
        (c : Text) (cmd : List Text) (s : Session C)
        → P s
        → P (record s { daemon = (dk.exec_create c cmd s.daemon).1 })
    pub starts :
        (i : Text) (s : Session C) → P s → P (record s { daemon = (dk.exec_start i s.daemon).1 })
    pub inspects :
        (i : Text) (s : Session C) → P s → P (record s { daemon = (dk.exec_inspect i s.daemon).1 })

  -- The read of the output asks for less.
  module _ {P : Session C → Type 0}
      (logs : (text : Text) (s : Session C) → P s → P (log on_log text s))
      (reads : (n : ℕ) (s : Session C) → P s → P (record s { readings = n })) where
    log_bytes-rule : (b : List ℕ) (s : Session C) → P s → P (log_bytes on_log b s)
    unfolding log_bytes
    log_bytes-rule [] s h = h
    log_bytes-rule (b ∷ bs) s h = logs (dk.decode (b ∷ bs)) s h

    pub drain-rule :
        (fuel : ℕ) (stream : Stream) (reader : Reader) (deadline : ℕ) (step : Text) (s : Session C)
        → P s
        → P (drain on_log fuel stream reader deadline step s).1
    unfolding drain
    drain-rule zero stream reader deadline step s h = h
    drain-rule (suc fuel) stream reader deadline step s h =
        let s' : Session C = record s { readings = suc s.readings } in
        let h' = reads (suc s.readings) s h in
        elim (Bool-cases (leb deadline (dk.monotonic s.readings))) [
          | inl late ↦ rw (drain, late) (logs _ s' h')
          | inr early ↦ elim (Bool-cases (dk.arrives s.readings)) [
            | inr empty ↦
                rw (drain, early) (rw empty (drain-rule fuel stream reader deadline step s' h'))
            | inl here ↦ elim (Option-cases (next_item stream reader).0) [
              | inl ended ↦ rw (drain, early) (rw here (rw ended h'))
              | inr (bytes, e) ↦
                  rw (drain, early)
                    (rw here (
                      rw e (
                        drain-rule fuel stream (next_item stream reader).1 deadline step
                          (log_bytes on_log bytes s') (log_bytes-rule bytes s' h'))))
            ]
          ]
        ]

  module _ {P : Session C → Type 0} (keeps : Keeps P) where
    inspect-rule : (exec_id step : Text) (s : Session C) → P s → P (inspect on_log exec_id step s).1
    unfolding inspect
    inspect-rule exec_id step s h =
        let h' = keeps.inspects exec_id s h in
        elim (Attempted-cases (dk.exec_inspect exec_id s.daemon).0) [
          | is_done a e ↦ rw (inspect, e) h'
          | is_error m e ↦ rw (inspect, e) (keeps.logs _ _ h')
          | is_broken e ↦ rw (inspect, e) h'
        ]

    watch-rule :
        (exec_id : Text) (stream : Stream) (step : Text) (deadline : ℕ) (s : Session C)
        → P s
        → P (watch on_log exec_id stream step deadline s).1
    unfolding watch
    watch-rule exec_id stream step deadline s h =
        let drained = drain on_log (enough on_log deadline s) stream (reading 0) deadline step s in
        let h' =
          drain-rule keeps.logs keeps.reads (enough on_log deadline s) stream (reading 0) deadline
            step s h in
        elim (Option-cases drained.0) [
          | inl e ↦ rw (watch, e) h'
          | inr (in_time, e) ↦ elim (Bool-cases in_time) [
            | inl ended ↦ rw (watch, e) (rw ended (inspect-rule exec_id step drained.1 h'))
            | inr late ↦ rw (watch, e) (rw late h')
          ]
        ]

    pub exec-rule :
        (container cmd step : Text) (deadline : ℕ) (s : Session C)
        → P s
        → P (exec on_log container cmd step deadline s).1
    unfolding exec
    exec-rule container cmd step deadline s h =
        let created = dk.exec_create container (shell cmd) s.daemon in
        let s₁ : Session C = record s { daemon = created.1 } in
        let h₁ = keeps.creates container (shell cmd) s h in
        elim (Attempted-cases created.0) [
          | is_error m e ↦ rw (exec, e) (keeps.logs _ s₁ h₁)
          | is_broken e ↦ rw (exec, e) h₁
          | is_done exec_id e ↦
              let started = dk.exec_start exec_id created.1 in
              let s₂ : Session C = record s { daemon = started.1 } in
              let h₂ = keeps.starts exec_id s₁ h₁ in
              elim (Attempted-cases started.0) [
                | is_error m f ↦ rw (exec, e) (rw f (keeps.logs _ s₂ h₂))
                | is_broken f ↦ rw (exec, e) (rw f h₂)
                | is_done stream f ↦
                    rw (exec, e) (rw f (watch-rule exec_id stream step deadline s₂ h₂))
              ]
        ]

    run_step-rule :
        (container : Text) (deadline : ℕ) (step : PipelineStep) (s : Session C)
        → P s
        → P (run_step on_log container deadline step s).1
    unfolding run_step
    run_step-rule container deadline step s h =
        let s₁ : Session C = record s { readings = suc (suc s.readings) } in
        let text = 10 ∷ (codes "$ " ++ line step.run) in
        let h₁ = keeps.logs text s₁ (keeps.reads (suc (suc s.readings)) s h) in
        let out =
          exec on_log container (step_command step.run) step.name deadline (log on_log text s₁) in
        let h₂ =
          exec-rule container (step_command step.run) step.name deadline (log on_log text s₁) h₁ in
        elim (Outcome-cases out.0) [
          | has_returned a e ↦ rw (run_step, e) (keeps.reads (suc out.1.readings) out.1 h₂)
          | has_raised e ↦ rw (run_step, e) h₂
          | is_unfinished e ↦ rw (run_step, e) h₂
        ]

    pub run_each-rule :
        (container : Text) (deadline : ℕ) (steps : List PipelineStep) (results : List StepResult)
        (s : Session C)
        → P s
        → P (run_each on_log container deadline steps results s).1
    unfolding run_each
    run_each-rule container deadline [] results s h = h
    run_each-rule container deadline (step ∷ rest) results s h =
        let ran = run_step on_log container deadline step s in
        let h' = run_step-rule container deadline step s h in
        elim (Bool-cases (ltb deadline (dk.monotonic (suc s.readings)))) [
          | inl late ↦ rw (run_each, late) (keeps.logs _ _ (keeps.reads (suc (suc s.readings)) s h))
          | inr early ↦ elim (Outcome-cases ran.0) [
            | has_raised e ↦ rw (run_each, early) (rw e h')
            | is_unfinished e ↦ rw (run_each, early) (rw e h')
            | has_returned (ok, result) e ↦ elim (Bool-cases ok) [
              | inl passing ↦
                  rw (run_each, early)
                    (rw e (
                      rw passing (
                        run_each-rule container deadline rest (results ++ (result ∷ [])) ran.1 h')))
              | inr failing ↦ elim (Bool-cases step.allow_failure) [
                | inl allowed ↦
                    rw (run_each, early)
                      (rw e (
                        rw failing (
                          rw allowed (
                            run_each-rule container deadline rest (results ++ (result ∷ [])) _
                              (keeps.logs _ ran.1 h')))))
                | inr final ↦ rw (run_each, early) (rw e (rw failing (rw final h')))
              ]
            ]
          ]
        ]

module _ ⦃rt : Runtime⦄ ⦃dk : Docker⦄ {C : Type 0} (on_log : Text → C → C) where
  pub run_in_container-rule :
      {P : Session C → Type 0}
      → Keeps on_log P
      → (container : Text) (p : Pipeline) (repo_url commit_sha : Text) (deadline : ℕ)
        (s : Session C)
      → P s
      → P (run_in_container on_log container p repo_url commit_sha deadline s).1
  unfolding run_in_container
  run_in_container-rule keeps container p repo_url commit_sha deadline s h =
      let cmd = checkout_cmd repo_url commit_sha in
      let out = exec on_log container cmd (codes "checkout") deadline s in
      let h' = exec-rule on_log keeps container cmd (codes "checkout") deadline s h in
      elim (Outcome-cases out.0) [
        | has_raised e ↦ rw (run_in_container, e) h'
        | is_unfinished e ↦ rw (run_in_container, e) h'
        | has_returned (ok, code) e ↦ elim (Bool-cases ok) [
          | inr failing ↦ rw (run_in_container, e) (rw failing h')
          | inl passing ↦
              rw (run_in_container, e)
                (rw passing (run_each-rule on_log keeps container deadline p.steps [] out.1 h'))
        ]
      ]

module _ ⦃dk : Docker⦄ {C : Type 0} where
  -- The removal of the container raises, or leaves the outcome as it is.
  pub clean_up-rule :
      (P : Outcome ExecutionResult → Type 0) (container : Text)
      (r : Outcome ExecutionResult × Session C)
      → P raised
      → P r.0
      → P (clean_up container r).0
  unfolding clean_up
  clean_up-rule P container (outcome, s) bad h =
      let killed = dk.kill container s.daemon in
      let removed = dk.remove container killed.1 in
      elim (Attempted-cases killed.0) [
        | is_broken e ↦ rw (clean_up, e) bad
        | is_done a e ↦ elim (Attempted-cases removed.0) [
          | is_broken f ↦ rw (clean_up, e) (rw f bad)
          | is_done b f ↦ rw (clean_up, e) (rw f h)
          | is_error b f ↦ rw (clean_up, e) (rw f h)
        ]
        | is_error a e ↦ elim (Attempted-cases removed.0) [
          | is_broken f ↦ rw (clean_up, e) (rw f bad)
          | is_done b f ↦ rw (clean_up, e) (rw f h)
          | is_error b f ↦ rw (clean_up, e) (rw f h)
        ]
      ]
