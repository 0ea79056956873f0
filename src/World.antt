-- ===== src/World.antt =====
-- The state of the server: its tables, the two Redis sets, what it has published and queued for
-- later, and how often it has read the clock and the sources of identifiers.
use ci_system.Prelude.{ℕ, suc, Bool, Text, List}
use ci_system.Runtime.{Runtime, Table, Zset, put}
use ci_system.Models.{Project, Job, JobAttempt, Worker, AiAnalysis, AttemptStatus}

-- `publish_log` and `publish_status`, newest first.
pub data Event : Type 0 where
  log_chunk : Text → Text → Event
  status_change : Text → Text → AttemptStatus → Bool → Event

module _ ⦃rt : Runtime⦄ where
  pub record World : Type 0 where
    pub projects : Table Project
    pub jobs : Table Job
    pub attempts : Table JobAttempt
    pub workers : Table Worker
    pub analyses : Table AiAnalysis
    pub queue : Zset
    pub delayed : Zset
    pub published : List Event
    pub background : List Text
    pub readings : ℕ

  -- One reading of the clock.
  abbrev pub now : World → ℕ × World
  now w = (rt.host.clock w.readings, record w { readings = suc w.readings })

  -- A fresh primary key.
  abbrev pub new_id : World → Text × World
  new_id w = (rt.host.uuid w.readings, record w { readings = suc w.readings })

  abbrev pub new_token : World → Text × World
  new_token w = (rt.host.token w.readings, record w { readings = suc w.readings })

  -- Writes of whole rows; the fields that an assignment leaves alone are those of the loaded row.
  abbrev pub save_attempt : Text → JobAttempt → World → World
  save_attempt k a w = record w { attempts = put w.attempts k a }

  abbrev pub save_job : Text → Job → World → World
  save_job k j w = record w { jobs = put w.jobs k j }

  abbrev pub save_worker : Text → Worker → World → World
  save_worker k r w = record w { workers = put w.workers k r }
