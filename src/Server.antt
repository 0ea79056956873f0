-- ===== src/Server.antt =====
-- The program as a step relation: the requests that backend/app/main.py routes, the background
-- tasks and the ticks of the reaper, in any order, and the losses of the Redis server. The routes
-- that only read are left out.
use ci_system.Prelude.{ℕ, zero, suc, none, some, Text, Option, List, [], ◌∷◌}
use ci_system.Prelude.Int.{ℤ}
use ci_system.Runtime.{Runtime, Zset}
use ci_system.World.{World}
use ci_system.Reaper.{run_reaper_once}
use ci_system.Api.Attempts.{AttemptReport, append_log, renew, complete, run_analysis}
use ci_system.Api.Workers.{register_worker, heartbeat, claim_job}
use ci_system.Api.Projects.{ProjectCreate, create_project, update_pipeline}
use ci_system.Api.Jobs.{JobCreate, trigger_job, trigger_analysis}
use ci_system.Api.Webhooks.{Push, github_webhook}

pub data Request : Type 0 where
  creates_project : ProjectCreate → Request
  updates_pipeline : Text → Text → Request
  triggers_job : Text → JobCreate → Request
  pushes : Text → Option Text → Push → Request
  registers_worker : Text → ℤ → Request
  beats : Text → Request
  claims : Text → Request
  appends_log : Text → Text → Text → Request
  renews : Text → Text → Request
  completes : Text → Text → AttemptReport → Request
  triggers_analysis : Text → Request
  runs_background_task : ℕ → Request
  reaps : Request

-- The task at a place of the list: a task runs after its own response, so in any order.
abbrev pub take_task : ℕ → List Text → Option (Text × List Text)
take_task n [] = none
take_task zero (attempt_id ∷ tasks) = some (attempt_id, tasks)
take_task (suc n) (attempt_id ∷ tasks) = elim (take_task n tasks) [
  | none ↦ none
  | some (task, rest) ↦ some (task, attempt_id ∷ rest)
]

module _ ⦃rt : Runtime⦄ where
  -- One of the tasks that wait, and the others.
  unfoldable pub run_background : Option (Text × List Text) → World → World
  unfolding run_analysis
  run_background none w = w
  run_background (some (attempt_id, rest)) w =
      run_analysis attempt_id (record w { background = rest })

  unfoldable pub serve : Request → World → World
  unfolding run_background
  serve (creates_project payload) w = (create_project payload w).1
  serve (updates_pipeline project_id pipeline_yaml) w =
      (update_pipeline project_id pipeline_yaml w).1
  serve (triggers_job project_id payload) w = (trigger_job project_id payload w).1
  serve (pushes project_id token push) w = (github_webhook project_id token push w).1
  serve (registers_worker name capacity) w = (register_worker name capacity w).1
  serve (beats worker_id) w = (heartbeat worker_id w).1
  serve (claims worker_id) w = (claim_job worker_id w).1
  serve (appends_log attempt_id lease_token chunk) w = (append_log attempt_id lease_token chunk w).1
  serve (renews attempt_id lease_token) w = (renew attempt_id lease_token w).1
  serve (completes attempt_id lease_token payload) w = (complete attempt_id lease_token payload w).1
  serve (triggers_analysis attempt_id) w = (trigger_analysis attempt_id w).1
  serve (runs_background_task n) w = run_background (take_task n w.background) w
  serve reaps w = (run_reaper_once w).1

  -- Before the first request.
  unfoldable pub start : World
  start = record {
    projects = rt.database.empty;
    jobs = rt.database.empty;
    attempts = rt.database.empty;
    workers = rt.database.empty;
    analyses = rt.database.empty;
    queue = rt.sorted_set.empty;
    delayed = rt.sorted_set.empty;
    published = [];
    background = [];
    readings = 0;
  }

  -- Redis keeps nothing durable: at any time its two sets may turn into any others.
  pub data Step (w : World) : World → Type 0 where
    serves : (q : Request) → Step w (serve q w)
    loses_redis : (queue delayed : Zset) → Step w (record w { queue = queue; delayed = delayed })

  pub data Reach : World → Type 0 where
    begins : Reach start
    follows : {v w : World} → Reach v → Step v w → Reach w
