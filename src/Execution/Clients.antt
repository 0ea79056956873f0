-- ===== src/Execution/Clients.antt =====
-- What an execution does to the state behind its callback.
use ci_system.Prelude.{◌≡◌, refl, Text}
use ci_system.Pipeline.{Pipeline}
use ci_system.Runtime.{Runtime}
use ci_system.Agent.Docker.{Docker}
use ci_system.Agent.Executor.{ExecutionResult, Outcome, Session}
use ci_system.Agent.Steps.{clean_up, run_steps, run_pipeline, run_options}
use ci_system.Execution.Cases.{Attempted-cases, is_done, is_error, is_broken}
use ci_system.Execution.Rule.{Keeps, run_in_container-rule}

module _ ⦃dk : Docker⦄ {C : Type 0} where
  clean_up-client :
      (container : Text) (r : Outcome ExecutionResult × Session C)
      → (clean_up container r).1.client ≡ r.1.client
  unfolding clean_up
  clean_up-client container (outcome, s) =
      let killed = dk.kill container s.daemon in
      let removed = dk.remove container killed.1 in
      elim (Attempted-cases killed.0) [
        | is_broken e ↦ rw (clean_up, e) refl
        | is_done a e ↦ elim (Attempted-cases removed.0) [
          | is_broken f ↦ rw (clean_up, e) (rw f refl)
          | is_done b f ↦ rw (clean_up, e) (rw f refl)
          | is_error b f ↦ rw (clean_up, e) (rw f refl)
        ]
        | is_error a e ↦ elim (Attempted-cases removed.0) [
          | is_broken f ↦ rw (clean_up, e) (rw f refl)
          | is_done b f ↦ rw (clean_up, e) (rw f refl)
          | is_error b f ↦ rw (clean_up, e) (rw f refl)
        ]
      ]

  -- A predicate on the client that every message keeps.
  client-Keeps :
      (on_log : Text → C → C) (Q : C → Type 0)
      → ((text : Text) (c : C) → Q c → Q (on_log text c))
      → Keeps on_log (λ s. Q s.client)
  client-Keeps on_log Q logs = record {
    logs = λ text s h. logs text s.client h;
    reads = λ n s h. h;
    creates = λ c cmd s h. h;
    starts = λ i s h. h;
    inspects = λ i s h. h;
  }

module _ ⦃rt : Runtime⦄ ⦃dk : Docker⦄ {C : Type 0} (on_log : Text → C → C) where
  pub run_pipeline-client :
      (Q : C → Type 0)
      → ((text : Text) (c : C) → Q c → Q (on_log text c))
      → (p : Pipeline) (repo_url commit_sha attempt_id : Text) (s : Session C) → Q s.client
      → Q (run_pipeline on_log p repo_url commit_sha attempt_id s).1.client
  unfolding run_pipeline run_steps
  run_pipeline-client Q logs p repo_url commit_sha attempt_id s h =
      let pulled = dk.pull p.image s.daemon in
      let started = dk.run (run_options p attempt_id) pulled.1 in
      elim (Attempted-cases pulled.0) [
        | is_error m e ↦ rw (run_pipeline, e) (logs _ s.client h)
        | is_broken e ↦ rw (run_pipeline, e) h
        | is_done a e ↦ elim (Attempted-cases started.0) [
          | is_error m f ↦ rw (run_pipeline, e) (rw (run_steps, f) (logs _ s.client h))
          | is_broken f ↦ rw (run_pipeline, e) (rw (run_steps, f) h)
          | is_done c f ↦
              rw (run_pipeline, e)
                (rw (run_steps, f)
                  (rw (clean_up-client c _) (
                    run_in_container-rule on_log (client-Keeps on_log Q logs) c p repo_url
                      commit_sha _ _ h)))
        ]
      ]
