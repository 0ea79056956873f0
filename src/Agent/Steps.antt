-- ===== src/Agent/Steps.antt =====
-- `run_pipeline` and `_run_steps` of backend/app/worker/docker_executor.py.
use ci_system.Prelude.{
  ℕ, suc, ◌+◌, ◌-◌, ◌*◌, Bool, true, false, Text, codes, Option, none, some, List, [], ◌∷◌, ◌++◌,
  ltb, if◌then◌else◌,
}
use ci_system.Prelude.Int.{pos}
use ci_system.Prelude.Lists.{take}
use ci_system.Config.{second}
use ci_system.DelayedEntry.{show_int}
use ci_system.Pipeline.{Pipeline, PipelineStep}
use ci_system.Runtime.{Runtime, config}
use ci_system.Agent.Shell.{quote}
use ci_system.Agent.Docker.{Docker, done, docker_error, broken, RunOptions}
use ci_system.Agent.Executor.{
  StepResult, ExecutionResult, Outcome, returned, raised, unfinished, Session, succeeded,
  infra_failure, permanent_failure, step_command, line, quoted, log, exec,
}

-- `f"ci-job-{attempt_id[:8]}" if attempt_id else None`
abbrev pub container_name : Text → Option Text
container_name [] = none
container_name (c ∷ cs) = some (codes "ci-job-" ++ take 8 (c ∷ cs))

abbrev pub run_options : ⦃dk : Docker⦄ → Pipeline → Text → RunOptions
run_options ⦃dk⦄ pipeline attempt_id = record {
  image = pipeline.image;
  command = codes "sleep " ++ show_int (pos (pipeline.timeout_seconds + 30));
  name = container_name attempt_id;
  network_mode = pipeline.network;
  mem_limit = pipeline.resources.memory;
  nano_cpus = dk.to_nano pipeline.resources.cpus;
}

-- The part of `checkout_cmd` that installs git where it is missing.
abbrev pub install_git : Text
install_git =
    codes "if ! command -v git >/dev/null 2>&1; then "
    ++ (codes "if command -v apt-get >/dev/null 2>&1; then "
        ++ (codes
              "apt-get update -qq && DEBIAN_FRONTEND=noninteractive apt-get install -y -qq git; "
            ++ (codes "elif command -v apk >/dev/null 2>&1; then apk add --no-cache git; "
                ++ codes
                    "else echo '[infra] job image does not provide a supported package manager to install git' >&2; exit 125; fi; fi && ")))

module _ ⦃rt : Runtime⦄ where
  unfoldable pub checkout_cmd : Text → Text → Text
  unfolding quote
  checkout_cmd repo_url commit_sha =
      install_git
      ++ (codes "git clone --depth "
          ++ (show_int (pos config.git_clone_depth)
              ++ (codes " -- "
                  ++ (quote repo_url
                      ++ (codes " /workspace/repo && cd /workspace/repo && git checkout "
                          ++ quote commit_sha)))))

module _ ⦃dk : Docker⦄ {C : Type 0} (on_log : Text → C → C) where
  -- One step, once the clock has been read and the deadline has not passed.
  unfoldable pub run_step :
      Text → ℕ → PipelineStep → Session C → Outcome (Bool × StepResult) × Session C
  unfolding exec
  run_step container deadline step s =
      let start = s.readings in
      let (executed, s') = exec on_log container (step_command step.run) step.name deadline (
        log on_log (10 ∷ (codes "$ " ++ line step.run))
          (record s { readings = suc (suc s.readings) })) in
      elim executed [
        | raised ↦ (raised, s')
        | unfinished ↦ (unfinished, s')
        | returned (ok, code) ↦
            let result : StepResult = record {
              name = step.name;
              exit_code = code;
              duration = dk.monotonic s'.readings - dk.monotonic start;
            } in
            (returned (ok, result), record s' { readings = suc s'.readings })
      ]

  -- The loop over the steps.
  unfoldable pub run_each :
      Text
      → ℕ
      → List PipelineStep
      → List StepResult
      → Session C
      → Outcome ExecutionResult × Session C
  unfolding run_step
  run_each container deadline [] results s = (returned (succeeded results), s)
  run_each container deadline (step ∷ rest) results s =
      let (executed, s') = run_step container deadline step s in
      if ltb deadline (dk.monotonic (suc s.readings))
      then (
        returned (infra_failure (pos 124) (some step.name) results (codes "timeout")),
        log on_log (line (codes "[infra] timeout before step " ++ quoted step.name))
            (record s { readings = suc (suc s.readings) }),
      )
      else elim executed [
        | raised ↦ (raised, s')
        | unfinished ↦ (unfinished, s')
        | returned (ok, result) ↦ elim ok [
          | true ↦ run_each container deadline rest (results ++ (result ∷ [])) s'
          | false ↦ elim step.allow_failure [
            | true ↦ run_each container deadline rest (results ++ (result ∷ [])) (
                log on_log
                  (line (
                    codes "[step "
                    ++ (quoted step.name ++ codes " failed but allow_failure=true, continuing]")))
                  s')
            | false ↦ (
              returned (permanent_failure result.exit_code step.name (results ++ (result ∷ []))),
              s',
            )
          ]
        ]
      ]

module _ ⦃dk : Docker⦄ {C : Type 0} where
  -- The `finally` of `_run_steps`: another exception than a `DockerException` takes the place of
  -- the result.
  unfoldable pub clean_up :
      Text → Outcome ExecutionResult × Session C → Outcome ExecutionResult × Session C
  clean_up container (outcome, s) =
      let (killed, daemon) = dk.kill container s.daemon in
      let (removed, daemon') = dk.remove container daemon in
      elim killed [
        | broken ↦ (raised, record s { daemon = daemon })
        | _ ↦ elim removed [
          | broken ↦ (raised, record s { daemon = daemon' })
          | _ ↦ (outcome, record s { daemon = daemon' })
        ]
      ]

module _ ⦃rt : Runtime⦄ ⦃dk : Docker⦄ {C : Type 0} (on_log : Text → C → C) where
  -- The body of the `try`.
  unfoldable pub run_in_container :
      Text → Pipeline → Text → Text → ℕ → Session C → Outcome ExecutionResult × Session C
  unfolding run_each exec
  run_in_container container pipeline repo_url commit_sha deadline s =
      let (executed, s') =
        exec on_log container (checkout_cmd repo_url commit_sha) (codes "checkout") deadline s in
      elim executed [
        | raised ↦ (raised, s')
        | unfinished ↦ (unfinished, s')
        | returned (ok, code) ↦
            if ok then run_each on_log container deadline pipeline.steps [] s' else (
              returned (infra_failure code (some (codes "checkout")) [] (codes "checkout_failed")),
              s',
            )
      ]

  unfoldable pub run_steps :
      Pipeline → Text → Text → Text → Session C → Outcome ExecutionResult × Session C
  unfolding run_in_container clean_up
  run_steps pipeline repo_url commit_sha attempt_id s =
      let (started, daemon) = dk.run (run_options pipeline attempt_id) s.daemon in
      let s₁ : Session C = record s { daemon = daemon } in
      let s₂ : Session C = record s₁ { readings = suc s₁.readings } in
      let deadline = dk.monotonic s₁.readings + pipeline.timeout_seconds * second in
      elim started [
        | broken ↦ (raised, s₁)
        | docker_error e ↦ (
          returned (infra_failure (pos 1) none [] (codes "container_start_failed: " ++ e)),
          log on_log (line (codes "[infra] failed to start container: " ++ e)) s₁,
        )
        | done container ↦
            clean_up container (run_in_container container pipeline repo_url commit_sha deadline s₂)
      ]

  unfoldable pub run_pipeline :
      Pipeline → Text → Text → Text → Session C → Outcome ExecutionResult × Session C
  unfolding run_steps
  run_pipeline pipeline repo_url commit_sha attempt_id s =
      let (pulled, daemon) = dk.pull pipeline.image s.daemon in
      let s₁ : Session C = record s { daemon = daemon } in
      elim pulled [
        | broken ↦ (raised, s₁)
        | docker_error e ↦ (
          returned (infra_failure (pos 1) none [] (codes "image_pull_failed: " ++ e)),
          log on_log
              (line
                (codes "[infra] failed to pull image " ++ (pipeline.image ++ (codes ": " ++ e))))
              s₁,
        )
        | done ok ↦ run_steps pipeline repo_url commit_sha attempt_id s₁
      ]
