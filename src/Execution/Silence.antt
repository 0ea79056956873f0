-- ===== src/Execution/Silence.antt =====
-- A command that prints nothing until the deadline of the pipeline.
use ci_system.Prelude.{
  ℕ, zero, suc, ◌+◌, ◌-◌, ◌≤◌, ◌≡◌, refl, sym, ap, Bool, inl, inr, true, false, codes, Text, some,
  List, [], ◌∷◌, ◌++◌, arith, Bool-cases, leb, ltb,
}
use ci_system.Prelude.Int.{ℤ, pos}
use ci_system.Pipeline.{Pipeline, PipelineStep}
use ci_system.Runtime.{Runtime}
use ci_system.Agent.Docker.{Docker, done, Stream}
use ci_system.Agent.Executor.{
  StepResult, ExecutionResult, Outcome, returned, Reader, reading, Session, log, drain, watch, exec,
  shell, line, step_command,
}
use ci_system.Agent.Steps.{run_step, run_each, run_in_container, checkout_cmd}
use ci_system.Execution.Returns.{passed}

module _ ⦃dk : Docker⦄ {C : Type 0} (on_log : Text → C → C) where
  -- From this reading of the clock on, no command prints anything, nor ends.
  abbrev NothingArrives : ℕ → Type 0
  NothingArrives start = (n : ℕ) → start ≤ n → dk.arrives n ≡ false

  drain-silent :
      (fuel : ℕ) (stream : Stream) (reader : Reader) (deadline : ℕ) (step : Text) (s : Session C)
      → NothingArrives s.readings
      → dk.passes deadline ≤ s.readings + fuel
      → (drain on_log (suc fuel) stream reader deadline step s).0 ≡ some false
  unfolding drain
  drain-silent zero stream reader deadline step s quiet h =
      rw (drain, passed on_log deadline s.readings (omega arith))
  drain-silent (suc fuel) stream reader deadline step s quiet h =
      elim (Bool-cases (leb deadline (dk.monotonic s.readings))) [
        | inl late ↦ rw (drain, late)
        | inr early ↦
            rw (drain, early)
              (rw (quiet s.readings (omega arith)) (
                drain-silent fuel stream reader deadline step
                  (record s { readings = suc s.readings }) (λ n le. quiet n (omega arith))
                  (omega arith)))
      ]

  -- The loop over the steps, when the first of them goes silent.
  silent_each :
      (container : Text) (deadline : ℕ) (step : PipelineStep) (rest : List PipelineStep)
      (results : List StepResult) (s : Session C)
      → NothingArrives s.readings
      → ((c : Text) (cmd : List Text) (d : dk.Daemon)
          → (i : Text) × ((dk.exec_create c cmd d).0 ≡ done i))
      → ((i : Text) (d : dk.Daemon) → (o : Stream) × ((dk.exec_start i d).0 ≡ done o))
      → dk.monotonic (suc s.readings) ≤ deadline
      → step.allow_failure ≡ false
      → (r : ExecutionResult) × ((run_each on_log container deadline (step ∷ rest) results s).0
          ≡ returned r)
        × (r.is_permanent_failure ≡ true)
        × (r.exit_code ≡ pos 124)
        × (r.failed_step ≡ some step.name)
  unfolding run_each run_step exec watch
  silent_each container deadline step rest results s quiet created started early final =
      let s₁ : Session C =
        log on_log (10 ∷ (codes "$ " ++ line step.run))
          (record s { readings = suc (suc s.readings) }) in
      let cmd = shell (step_command step.run) in
      let (exec_id, e) = created container cmd s₁.daemon in
      let d₁ = (dk.exec_create container cmd s₁.daemon).1 in
      let (stream, f) = started exec_id d₁ in
      let s₂ : Session C = record s₁ { daemon = (dk.exec_start exec_id d₁).1 } in
      let silent =
        drain-silent (dk.passes deadline - s₂.readings) stream (reading 0) deadline step.name s₂
          (λ n le. quiet n (omega arith)) (omega arith) in
      let in_time : ltb deadline (dk.monotonic (suc s.readings)) ≡ false = ground arith in
      rw (run_each, in_time)
        (rw (run_step, exec, e) (rw f (rw (watch, silent) (rw final (_, refl, refl, refl, refl)))))

module _ ⦃rt : Runtime⦄ ⦃dk : Docker⦄ {C : Type 0} (on_log : Text → C → C) where
  -- The daemon creates and starts every command. When the checkout has passed, the deadline of the pipeline has not passed then, and from then
  -- on no command prints anything or ends, the first step, unless it may fail, counts as failed for
  -- good with the exit code 124: this timeout is not reported as a failure of the infrastructure.
  pub silent_step_permanent :
      (container : Text) (deadline : ℕ) (p : Pipeline) (repo_url commit_sha : Text)
      (step : PipelineStep) (rest : List PipelineStep) (s s' : Session C) (code : ℤ)
      → exec on_log container (checkout_cmd repo_url commit_sha) (codes "checkout") deadline s
        ≡ (returned (true, code), s')
      → p.steps ≡ step ∷ rest
      → NothingArrives on_log s'.readings
      → ((c : Text) (cmd : List Text) (d : dk.Daemon)
          → (i : Text) × ((dk.exec_create c cmd d).0 ≡ done i))
      → ((i : Text) (d : dk.Daemon) → (o : Stream) × ((dk.exec_start i d).0 ≡ done o))
      → dk.monotonic (suc s'.readings) ≤ deadline
      → step.allow_failure ≡ false
      → (r : ExecutionResult) × ((run_in_container on_log container p repo_url commit_sha deadline
            s).0
          ≡ returned r)
        × (r.is_permanent_failure ≡ true)
        × (r.exit_code ≡ pos 124)
        × (r.failed_step ≡ some step.name)
  unfolding run_in_container
  silent_step_permanent container deadline p repo_url commit_sha step rest s s' code e steps quiet
        created started early final =
      let out =
        exec on_log container (checkout_cmd repo_url commit_sha) (codes "checkout") deadline s in
      let ends : out.0 ≡ returned (true, code) =
        ap (λ (x : Outcome (Bool × ℤ) × Session C). x.0) e in
      let same : s'.readings ≡ out.1.readings =
        sym (ap (λ (x : Outcome (Bool × ℤ) × Session C). x.1.readings) e) in
      let (r, returns, permanent, failed, name) =
        silent_each on_log container deadline step rest [] out.1 (rw same at quiet) created started
          (rw same at early) final in
      (r, rw (run_in_container, ends) (rw steps returns), permanent, failed, name)
