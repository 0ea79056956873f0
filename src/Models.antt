-- ===== src/Models.antt =====
-- backend/app/models.py: the rows of the tables. A row is held under its primary key, which is
-- therefore no field. Instants are ticks. Columns that no modelled code reads or writes
-- (`created_at`, `updated_at`, `registered_at`, the `meta` of a worker) are left out.
use ci_system.Prelude.{ℕ, Bool, true, false, Text, Option}
use ci_system.Prelude.Int.{ℤ}

pub data JobStatus : Type 0 where
  queued running succeeded failed errored cancelled : JobStatus

pub data AttemptStatus : Type 0 where
  leased running succeeded failed infra_error cancelled : AttemptStatus

pub data WorkerStatus : Type 0 where
  online offline dead : WorkerStatus

pub record Project : Type 0 where
  pub name : Text
  pub repo_url : Text
  pub default_branch : Text
  pub pipeline_yaml : Text
  pub webhook_token : Text

pub record Job : Type 0 where
  pub project_id : Text
  pub commit_sha : Text
  pub branch : Text
  pub trigger : Text
  pub status : JobStatus
  pub priority : ℤ
  pub pipeline_snapshot : Text

-- `logs` is NULL in no row that the program writes, and is read as `logs or ""`.
pub record JobAttempt : Type 0 where
  pub job_id : Text
  pub attempt_number : ℕ
  pub status : AttemptStatus
  pub worker_id : Option Text
  pub lease_token : Option Text
  pub lease_expires_at : Option ℕ
  pub started_at : Option ℕ
  pub finished_at : Option ℕ
  pub exit_code : Option ℤ
  pub failed_step : Option Text
  pub is_permanent_failure : Bool
  pub logs : Text
  pub next_retry_at : Option ℕ

pub record Worker : Type 0 where
  pub name : Text
  pub status : WorkerStatus
  pub last_heartbeat_at : ℕ
  pub capacity : ℤ

pub data AnalysisStatus : Type 0 where
  pending completed unavailable invalid : AnalysisStatus

-- Held under the `attempt_id`, which is unique. `confidence` is in billionths.
pub record AiAnalysis : Type 0 where
  pub status : AnalysisStatus
  pub provider : Option Text
  pub model : Option Text
  pub failure_category : Option Text
  pub root_cause : Option Text
  pub explanation : Option Text
  pub suggested_fix : Option Text
  pub confidence : Option ℕ
  pub raw_response : Option Text
  pub error_message : Option Text
  pub completed_at : Option ℕ

abbrev pub is_queued : JobStatus → Bool
is_queued JobStatus.queued = true
is_queued _ = false

abbrev pub is_online : WorkerStatus → Bool
is_online WorkerStatus.online = true
is_online _ = false

-- `status in (LEASED, RUNNING)`: the attempt is held, or waits for a worker.
abbrev pub is_active : AttemptStatus → Bool
is_active AttemptStatus.leased = true
is_active AttemptStatus.running = true
is_active _ = false

-- `status in (FAILED, INFRA_ERROR)`: the attempts that the analyzer looks at.
abbrev pub is_failure : AttemptStatus → Bool
is_failure AttemptStatus.failed = true
is_failure AttemptStatus.infra_error = true
is_failure _ = false
