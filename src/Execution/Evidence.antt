-- ===== src/Execution/Evidence.antt =====
-- What the daemon did for an execution that passed.
use ci_system.Prelude.{◌≡◌, true, codes, Text, some, List, [], ◌∷◌, ◌++◌}
use ci_system.Prelude.Int.{pos}
use ci_system.Pipeline.{Pipeline, PipelineStep}
use ci_system.Runtime.{Runtime}
use ci_system.Agent.Docker.{Docker, done, Stream}
use ci_system.Agent.Steps.{run_options, checkout_cmd}

module _ ⦃dk : Docker⦄ where
  -- Between two states the daemon ran the command in a shell of the container and reported the exit
  -- code 0 for it.
  pub record Executed (container cmd : Text) (d d' : dk.Daemon) : Type 0 where
    pub exec_id : Text
    pub stream : Stream
    pub created : (dk.exec_create container (codes "sh" ∷ codes "-c" ∷ cmd ∷ []) d).0 ≡ done exec_id
    pub started :
        (dk.exec_start exec_id
          (dk.exec_create container (codes "sh" ∷ codes "-c" ∷ cmd ∷ []) d).1).0
        ≡ done stream
    pub inspected :
        dk.exec_inspect exec_id
          (dk.exec_start exec_id
            (dk.exec_create container (codes "sh" ∷ codes "-c" ∷ cmd ∷ []) d).1).1
        ≡ (done (some (pos 0)), d')

  -- Between two states the daemon was asked to run the command in a shell of the container: it did
  -- not create it, or it was asked to start it, and perhaps for its exit code too.
  pub data Tried (container cmd : Text) (d d' : dk.Daemon) : Type 0 where
    asked :
        d' ≡ (dk.exec_create container (codes "sh" ∷ codes "-c" ∷ cmd ∷ []) d).1
        → Tried container cmd d d'
    begun :
        (exec_id : Text)
        → (dk.exec_create container (codes "sh" ∷ codes "-c" ∷ cmd ∷ []) d).0 ≡ done exec_id
        → d'
          ≡ (dk.exec_start exec_id
              (dk.exec_create container (codes "sh" ∷ codes "-c" ∷ cmd ∷ []) d).1).1
        → Tried container cmd d d'
    ended :
        (exec_id : Text)
        → (dk.exec_create container (codes "sh" ∷ codes "-c" ∷ cmd ∷ []) d).0 ≡ done exec_id
        → d'
          ≡ (dk.exec_inspect exec_id
              (dk.exec_start exec_id
                (dk.exec_create container (codes "sh" ∷ codes "-c" ∷ cmd ∷ []) d).1).1).1
        → Tried container cmd d d'

  -- The steps, one after the other: the daemon executed each with the exit code 0, or was asked to
  -- and it may fail.
  pub data Ran (container : Text) : List PipelineStep → dk.Daemon → dk.Daemon → Type 0 where
    all_ran : {d : dk.Daemon} → Ran container [] d d
    passed :
        {step : PipelineStep} {steps : List PipelineStep} {d d' e : dk.Daemon}
        → Executed container (codes "cd /workspace/repo && " ++ step.run) d d'
        → Ran container steps d' e
        → Ran container (step ∷ steps) d e
    allowed :
        {step : PipelineStep} {steps : List PipelineStep} {d d' e : dk.Daemon}
        → step.allow_failure ≡ true
        → Tried container (codes "cd /workspace/repo && " ++ step.run) d d'
        → Ran container steps d' e
        → Ran container (step ∷ steps) d e

  -- The daemon started a container for the pipeline, executed the checkout in it and then the steps.
  pub record Carried ⦃rt : Runtime⦄ (p : Pipeline) (repo_url commit_sha attempt_id : Text)
      (d : dk.Daemon) : Type 0 where
    pub container : Text
    pub fetched : dk.Daemon
    pub last : dk.Daemon
    pub started : (dk.run (run_options p attempt_id) (dk.pull p.image d).1).0 ≡ done container
    pub checked_out :
        Executed container
          (checkout_cmd repo_url commit_sha)
          (dk.run (run_options p attempt_id) (dk.pull p.image d).1).1
          fetched
    pub steps_ran : Ran container p.steps fetched last
