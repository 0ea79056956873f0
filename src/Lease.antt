-- ===== src/Lease.antt =====
-- backend/app/scheduler/lease_manager.py: leases, reports and bounded retries. `now`, `new_id` and
-- `new_token` are read in the order of the source. A handler runs in one transaction, so the model
-- commits at its end.
use ci_system.Prelude.{
  ℕ, suc, ◌+◌, ◌-◌, ◌*◌, ◌^◌, Bool, true, false, not, ◌||◌, Text, text_eq, Option, none, some, ltb,
  leb, zero, [], if◌then◌else◌,
}
use Prim.Native.Nat.{min}
use ci_system.Prelude.Int.{ℤ, pos, negsuc}
use ci_system.Config.{second}
use ci_system.Models.{
  Job, JobAttempt, JobStatus, AttemptStatus, Worker, is_queued, is_online, is_active,
}
use ci_system.Runtime.{Runtime, config, get, latest}
use ci_system.World.{World, now, new_id, new_token, save_attempt, save_job}
use ci_system.RedisClient.{dequeue_one}
use ci_system.DelayedEntry.{delayed_entry}

-- `attempt.lease_token == lease_token`
abbrev pub holds_token : Option Text → Text → Bool
holds_token none lease_token = false
holds_token (some token) lease_token = text_eq token lease_token

abbrev pub is_zero : ℤ → Bool
is_zero (pos zero) = true
is_zero (pos (suc n)) = false
is_zero (negsuc n) = false

-- The row of `models.JobAttempt(job_id=…, attempt_number=…, status=LEASED)`, with its defaults.
abbrev pub new_attempt : Text → ℕ → Option ℕ → JobAttempt
new_attempt job_id number retry_at = record {
  job_id = job_id;
  attempt_number = number;
  status = AttemptStatus.leased;
  worker_id = none;
  lease_token = none;
  lease_expires_at = none;
  started_at = none;
  finished_at = none;
  exit_code = none;
  failed_step = none;
  is_permanent_failure = false;
  logs = [];
  next_retry_at = retry_at;
}

module _ ⦃rt : Runtime⦄ where
  -- In ticks; `attempt_number` is 1-indexed.
  unfoldable pub backoff_seconds : ℕ → ℕ
  backoff_seconds attempt_number =
      min (config.retry_backoff_base_seconds * 2 ^ (attempt_number - 1))
        config.retry_backoff_max_seconds

  unfoldable pub create_first_attempt : Text → World → Text × World
  create_first_attempt job_id w =
      let (attempt_id, w') = new_id w in
      (attempt_id, save_attempt attempt_id (new_attempt job_id 1 none) w')

  -- The most recent attempt of the job, or a first one.
  unfoldable pub find_attempt : Text → World → Text × World
  unfolding create_first_attempt
  find_attempt job_id w =
      elim (latest (λ a. text_eq a.job_id job_id) (λ a. a.attempt_number) w.attempts) [
        | some attempt_id ↦ (attempt_id, w)
        | none ↦ create_first_attempt job_id w
      ]

  -- The assignments of a claim to the attempt and its job.
  unfoldable pub lease_attempt : Text → Text → Job → Text → JobAttempt → World → World
  lease_attempt worker_id job_id job attempt_id attempt w =
      let (lease_token, w₁) = new_token w in
      let (leased_at, w₂) = now w₁ in
      let (started_at, w₃) = now w₂ in
      let leased = record attempt {
        worker_id = some worker_id;
        status = AttemptStatus.leased;
        lease_token = some lease_token;
        lease_expires_at = some (leased_at + config.job_lease_seconds * second);
        started_at = some started_at;
      } in
      save_job job_id (record job { status = JobStatus.running })
        (save_attempt attempt_id leased w₃)

  -- `find_attempt` always names a row, so the missing one has no behaviour in the source.
  unfoldable pub claim_found : Text → Text → Job → Text × World → Option Text × World
  unfolding lease_attempt
  claim_found worker_id job_id job (attempt_id, w) = elim (get w.attempts attempt_id) [
    | none ↦ (none, w)
    | some attempt ↦ (some attempt_id, lease_attempt worker_id job_id job attempt_id attempt w)
  ]

  -- What a claim does with the popped job: a stale entry is dropped.
  unfoldable pub claim_popped : Text → Option Text × World → Option Text × World
  unfolding find_attempt claim_found
  claim_popped worker_id (none, w) = (none, w)
  claim_popped worker_id (some job_id, w) = elim (get w.jobs job_id) [
    | none ↦ (none, w)
    | some job ↦
        if is_queued job.status
        then claim_found worker_id job_id job (find_attempt job_id w)
        else (none, w)
  ]

  -- The id of the claimed attempt.
  unfoldable pub claim_next_job : Text → Worker → World → Option Text × World
  unfolding claim_popped
  claim_next_job worker_id worker w =
      if is_online worker.status then claim_popped worker_id (dequeue_one w) else (none, w)

  unfoldable pub renew_lease : Text → Text → World → Bool × World
  renew_lease attempt_id lease_token w = elim (get w.attempts attempt_id) [
    | none ↦ (false, w)
    | some attempt ↦
        if not (holds_token attempt.lease_token lease_token)
        then (false, w)
        else if not (is_active attempt.status)
        then (false, w)
        else let (t, w') = now w in
          let renewed = record attempt {
            lease_expires_at = some (t + config.job_lease_seconds * second);
          } in
          (true, save_attempt attempt_id renewed w')
  ]

  unfoldable pub mark_running : Text → Text → World → Bool × World
  mark_running attempt_id lease_token w = elim (get w.attempts attempt_id) [
    | none ↦ (false, w)
    | some attempt ↦
        if not (holds_token attempt.lease_token lease_token)
        then (false, w)
        else (true, save_attempt attempt_id (record attempt { status = AttemptStatus.running }) w)
  ]

  unfoldable pub schedule_delayed_requeue : Text → ℕ → ℤ → World → World
  schedule_delayed_requeue job_id ready_at priority w = record w {
    delayed = rt.sorted_set.zadd w.delayed (delayed_entry job_id priority) (pos ready_at);
  }

  -- The failed attempt counts by its number alone.
  unfoldable pub maybe_retry : Text → Job → ℕ → World → Bool × World
  unfolding backoff_seconds schedule_delayed_requeue
  maybe_retry job_id job failed_number w =
      let (attempt_id, w₁) = new_id w in
      let (t, w₂) = now w₁ in
      let ready_at = t + backoff_seconds failed_number in
      if leb config.max_job_attempts failed_number
      then (false, save_job job_id (record job { status = JobStatus.errored }) w)
      else (
        true,
        schedule_delayed_requeue job_id ready_at job.priority (
            save_job job_id (record job { status = JobStatus.queued })
              (save_attempt attempt_id (new_attempt job_id (suc failed_number) (some ready_at))
                w₂)),
      )

-- The keyword arguments of `complete_attempt`.
pub record Report : Type 0 where
  pub exit_code : ℤ
  pub is_permanent_failure : Bool
  pub failed_step : Option Text

module _ ⦃rt : Runtime⦄ where
  -- The verdict on a report whose lease is valid.
  unfoldable pub finish_attempt : Text → JobAttempt → Job → Report → World → Bool × World
  unfolding maybe_retry
  finish_attempt attempt_id attempt job report w =
      let (t, w') = now w in
      let finished = record attempt {
        finished_at = some t;
        exit_code = some report.exit_code;
        failed_step = report.failed_step;
        is_permanent_failure = report.is_permanent_failure;
      } in
      if is_zero report.exit_code
      then (
        false,
        save_job attempt.job_id (record job { status = JobStatus.succeeded })
            (save_attempt attempt_id (record finished { status = AttemptStatus.succeeded }) w'),
      )
      else if report.is_permanent_failure
      then (
        false,
        save_job attempt.job_id (record job { status = JobStatus.failed })
            (save_attempt attempt_id (record finished { status = AttemptStatus.failed }) w'),
      )
      else maybe_retry attempt.job_id job attempt.attempt_number
          (save_attempt attempt_id (record finished { status = AttemptStatus.infra_error }) w')

  -- The foreign key of `job_id` rules out a missing job.
  unfoldable pub complete_valid : Text → JobAttempt → Report → World → Option (Text × Bool) × World
  unfolding finish_attempt
  complete_valid attempt_id attempt report w = elim (get w.jobs attempt.job_id) [
    | none ↦ (none, w)
    | some job ↦
        let (requeued, w') = finish_attempt attempt_id attempt job report w in
        (some (attempt_id, requeued), w')
  ]

  -- A lease that has no expiry, or one in the past, is stale.
  unfoldable pub complete_leased :
      Text → JobAttempt → Report → Option ℕ → World → Option (Text × Bool) × World
  unfolding complete_valid
  complete_leased attempt_id attempt report none w = (none, w)
  complete_leased attempt_id attempt report (some lease_expires_at) w =
      let (t, w') = now w in
      if ltb lease_expires_at t then (none, w') else complete_valid attempt_id attempt report w'

  -- The id of the attempt and whether the job was requeued; none for a stale report.
  unfoldable pub complete_attempt : Text → Text → Report → World → Option (Text × Bool) × World
  unfolding complete_leased
  complete_attempt attempt_id lease_token report w = elim (get w.attempts attempt_id) [
    | none ↦ (none, w)
    | some attempt ↦
        if not (holds_token attempt.lease_token lease_token) || not (is_active attempt.status)
        then (none, w)
        else complete_leased attempt_id attempt report attempt.lease_expires_at w
  ]
