-- ===== src/Consistency/Defs.antt =====
-- The invariant of the tables of jobs and attempts.
use ci_system.Prelude.{ℕ, ◌≤◌, ◌≡◌, ◌≢◌, Bool, true, false, Text, Option, none, some}
use Prim.Native.Nat.{max}
use ci_system.Models.{Job, JobAttempt, JobStatus, is_active}
use ci_system.Runtime.{Runtime, config, Table, get}
use ci_system.World.{World}

-- A job that still waits or runs.
abbrev pub is_open : JobStatus → Bool
is_open JobStatus.queued = true
is_open JobStatus.running = true
is_open _ = false

-- What an active attempt carries: nothing while its job is queued, a worker, a token and an expiry
-- while the job runs; a closed job has no active attempt.
abbrev pub agrees : JobStatus → Option Text → Option Text → Option ℕ → Bool
agrees JobStatus.queued none none none = true
agrees JobStatus.running (some worker) (some token) (some expiry) = true
agrees _ _ _ _ = false

module _ ⦃rt : Runtime⦄ where
  pub record ConsistentTables (jobs : Table Job) (attempts : Table JobAttempt) (readings : ℕ)
      : Type 0 where
    -- every attempt has its job
    pub linked : (k : Text) (a : JobAttempt) → get attempts k ≡ some a → get jobs a.job_id ≢ none
    -- an active attempt agrees with the status of its job
    pub agreed :
        (k : Text) (a : JobAttempt) (j : Job)
        → get attempts k ≡ some a
        → get jobs a.job_id ≡ some j
        → is_active a.status ≡ true
        → agrees j.status a.worker_id a.lease_token a.lease_expires_at ≡ true
    -- an active attempt is the newest of its job
    pub newest :
        (k i : Text) (a b : JobAttempt)
        → get attempts k ≡ some a
        → get attempts i ≡ some b
        → b.job_id ≡ a.job_id
        → is_active a.status ≡ true
        → b.attempt_number ≤ a.attempt_number
    -- the attempts of a job have different numbers
    pub numbered :
        (k i : Text) (a b : JobAttempt)
        → get attempts k ≡ some a
        → get attempts i ≡ some b
        → b.job_id ≡ a.job_id
        → b.attempt_number ≡ a.attempt_number
        → k ≡ i
    -- an open job has an active attempt
    pub attended :
        (k : Text) (j : Job)
        → get jobs k ≡ some j
        → is_open j.status ≡ true
        → (i : Text) × (a : JobAttempt) × (get attempts i ≡ some a)
          × (a.job_id ≡ k)
          × (is_active a.status ≡ true)
    -- the numbers start at 1 and keep to the retry budget
    pub counted :
        (k : Text) (a : JobAttempt)
        → get attempts k ≡ some a
        → (1 ≤ a.attempt_number) × (a.attempt_number ≤ max 1 config.max_job_attempts)
    -- identifiers that are not drawn yet name no row
    pub fresh_attempt : (n : ℕ) → readings ≤ n → get attempts (rt.host.uuid n) ≡ none
    pub fresh_job : (n : ℕ) → readings ≤ n → get jobs (rt.host.uuid n) ≡ none

  abbrev pub Consistent : World → Type 0
  Consistent w = ConsistentTables w.jobs w.attempts w.readings
