-- ===== src/Execution/Containers.antt =====
-- The containers that an execution leaves behind.
use ci_system.Prelude.{◌≡◌, ◌≢◌, refl, false, Text, text_eq, text_eq_iff, arith, if◌then◌else◌, ◌∙◌}
use ci_system.Pipeline.{Pipeline}
use ci_system.Runtime.{Runtime}
use ci_system.Agent.Docker.{Docker, done, broken, RunOptions}
use ci_system.Agent.Executor.{ExecutionResult, Outcome, Session}
use ci_system.Agent.Steps.{clean_up, run_steps, run_pipeline, run_options}
use ci_system.Execution.Cases.{Attempted-cases, is_done, is_error, is_broken}
use ci_system.Execution.Rule.{Keeps, run_in_container-rule}

-- A daemon that answers every kill, with a `DockerException` at worst, and removes what it is told
-- to remove.
pub record IsDependable (dk : Docker) : Type 0 where
  pub kills : (c : Text) (d : dk.Daemon) → (dk.kill c d).0 ≢ broken
  pub removes : (c : Text) (d : dk.Daemon) → (dk.remove c d).0 ≡ done tt

module _ ⦃dk : Docker⦄ {C : Type 0} where
  -- The same containers as a daemon.
  abbrev SameContainers : dk.Daemon → Session C → Type 0
  SameContainers d s = (x : Text) → dk.exists s.daemon x ≡ dk.exists d x

  same-Keeps : (on_log : Text → C → C) (d : dk.Daemon) → Keeps on_log (SameContainers d)
  same-Keeps on_log d = record {
    logs = λ text s h. h;
    reads = λ n s h. h;
    creates = λ c cmd s h x. dk.exists-exec_create c cmd x s.daemon ∙ h x;
    starts = λ i s h x. dk.exists-exec_start i x s.daemon ∙ h x;
    inspects = λ i s h x. dk.exists-exec_inspect i x s.daemon ∙ h x;
  }

  clean_up-removes :
      (container : Text) (d : dk.Daemon) (r : Outcome ExecutionResult × Session C)
      → IsDependable dk
      → SameContainers d r.1
      → (x : Text)
      → dk.exists (clean_up container r).1.daemon x
        ≡ (if text_eq container x then false else dk.exists d x)
  unfolding clean_up
  clean_up-removes container d (outcome, s) dep h x =
      let killed = dk.kill container s.daemon in
      let removed = dep.removes container killed.1 in
      let gone = dk.exists-remove container x killed.1 removed in
      let same = dk.exists-kill container x s.daemon in
      let left : dk.exists (dk.remove container killed.1).1 x
          ≡ (if text_eq container x then false else dk.exists d x) =
        rw gone (rw (same, h x) refl) in
      elim (Attempted-cases killed.0) [
        | is_broken e ↦ absurd (dep.kills container s.daemon e)
        | is_done a e ↦ rw (clean_up, e) (rw removed left)
        | is_error a e ↦ rw (clean_up, e) (rw removed left)
      ]

module _ ⦃rt : Runtime⦄ ⦃dk : Docker⦄ {C : Type 0} (on_log : Text → C → C) where
  -- With a daemon that answers every kill, with a `DockerException` at worst, and removes what it is
  -- told to, an execution whose container starts once the image was asked for leaves exactly the
  -- containers that there were before, whatever its commands do and however it ends.
  pub no_container_left :
      (p : Pipeline) (repo_url commit_sha attempt_id : Text) (s : Session C) (c : Text)
      → IsDependable dk
      → (dk.run (run_options p attempt_id) (dk.pull p.image s.daemon).1).0 ≡ done c
      → (x : Text)
      → dk.exists (run_pipeline on_log p repo_url commit_sha attempt_id s).1.daemon x
        ≡ dk.exists s.daemon x
  unfolding run_pipeline run_steps
  no_container_left p repo_url commit_sha attempt_id s c dep f x =
      let pulled = dk.pull p.image s.daemon in
      let same = dk.exists-pull p.image x s.daemon in
      let o = run_options p attempt_id in
      let started = dk.run o pulled.1 in
      elim (Attempted-cases pulled.0) [
        | is_error m e ↦ rw (run_pipeline, e) same
        | is_broken e ↦ rw (run_pipeline, e) same
        | is_done a e ↦
            rw (run_pipeline, e)
              (rw (run_steps, f)
                (clean_up-removes c started.1 _ dep
                    (run_in_container-rule on_log (same-Keeps on_log started.1) c p repo_url
                      commit_sha _ _ (λ y. refl))
                    x
                  ∙ back o pulled.1 c same f))
      ]
    where
      back :
          (o : RunOptions) (d : dk.Daemon) (c : Text)
          → dk.exists d x ≡ dk.exists s.daemon x
          → (dk.run o d).0 ≡ done c
          → (if text_eq c x then false else dk.exists (dk.run o d).1 x) ≡ dk.exists s.daemon x
      back o d c same f = ground (arith, text_eq_iff c x, dk.exists-run o d c x, dk.run-fresh o d c)
