-- ===== src/Reaper.antt =====
-- The sweeps of backend/app/scheduler/lease_manager.py and the tick of
-- backend/app/scheduler/scheduler.py that runs them.
use ci_system.Prelude.{
  ℕ, suc, ◌-◌, ◌*◌, Bool, true, false, ◌&&◌, Text, codes, text_eq, Option, none, some, List, [],
  ◌∷◌, ltb,
}
use ci_system.Prelude.Lists.{length}
use ci_system.Prelude.Int.{ℤ, pos}
use ci_system.Config.{second}
use ci_system.Models.{
  Job, JobAttempt, AttemptStatus, JobStatus, Worker, WorkerStatus, is_queued, is_online, is_active,
}
use ci_system.Runtime.{Runtime, config, get, select}
use ci_system.World.{World, now, save_attempt, save_job, save_worker}
use ci_system.RedisClient.{enqueue}
use ci_system.DelayedEntry.{rpartition, read_int}
use ci_system.Lease.{maybe_retry}

-- `lease_expires_at < t`; a NULL satisfies no comparison.
abbrev pub expires_before : Option ℕ → ℕ → Bool
expires_before none t = false
expires_before (some e) t = ltb e t

-- `failed_step or "lease_expired"`
abbrev pub or_lease_expired : Option Text → Option Text
or_lease_expired none = some (codes "lease_expired")
or_lease_expired (some []) = some (codes "lease_expired")
or_lease_expired (some (c ∷ cs)) = some (c ∷ cs)

abbrev pub is_held_by : Text → Option Text → Bool
is_held_by worker_id none = false
is_held_by worker_id (some holder) = text_eq holder worker_id

module _ ⦃rt : Runtime⦄ where
  unfoldable pub promote_entry : Text → Text × Option ℤ → World → Option World
  promote_entry entry (job_id, none) w = none
  promote_entry entry (job_id, some priority) w =
      let (t, w₁) = now w in
      let w₂ = enqueue job_id priority t w₁ in
      some (record w₂ { delayed = rt.sorted_set.zrem w₂.delayed entry })

  -- The loop of `promote_delayed_jobs`; the first part of the result is none when `int` raised, and
  -- what was promoted before that stays promoted.
  unfoldable pub promote_all : List Text → ℕ → World → Option ℕ × World
  unfolding promote_entry
  promote_all [] promoted w = (some promoted, w)
  promote_all (entry ∷ ready) promoted w =
      let (job_id, priority) = rpartition entry in
      elim (promote_entry entry (job_id, read_int priority) w) [
        | none ↦ (none, w)
        | some w' ↦ promote_all ready (suc promoted) w'
      ]

  unfoldable pub promote_delayed_jobs : World → Option ℕ × World
  unfolding promote_all
  promote_delayed_jobs w =
      let (cutoff, w') = now w in
      promote_all (rt.sorted_set.zrangebyscore w'.delayed (pos 0) (pos cutoff)) 0 w'

  -- A loaded job whose retry budget is spent is marked a second time.
  unfoldable pub mark_errored : Text → Job → Bool × World → World
  mark_errored job_id job (true, w) = w
  mark_errored job_id job (false, w) = save_job job_id (record job { status = JobStatus.errored }) w

  unfoldable pub expire_row : Text → JobAttempt → World → World
  unfolding mark_errored maybe_retry
  expire_row attempt_id attempt w = elim (get w.jobs attempt.job_id) [
    | none ↦ w
    | some job ↦
        let (t, w') = now w in
        let expired = record attempt {
          status = AttemptStatus.infra_error;
          finished_at = some t;
          failed_step = or_lease_expired attempt.failed_step;
        } in
        mark_errored attempt.job_id job (
          maybe_retry attempt.job_id job attempt.attempt_number
            (save_attempt attempt_id expired w'))
  ]

  -- One round of the loop of `reap_expired_leases`; the rows are those that the query loaded.
  unfoldable pub expire_attempt : Text → World → World
  unfolding expire_row
  expire_attempt attempt_id w = elim (get w.attempts attempt_id) [
    | none ↦ w
    | some attempt ↦ expire_row attempt_id attempt w
  ]

  unfoldable pub expire_all : List Text → World → World
  expire_all [] w = w
  expire_all (attempt_id ∷ rest) w = expire_all rest (expire_attempt attempt_id w)

  -- The filter of the query in `reap_expired_leases`.
  abbrev pub is_expired : ℕ → JobAttempt → Bool
  is_expired t a = is_active a.status && expires_before a.lease_expires_at t

  unfoldable pub reap_expired_leases : World → ℕ × World
  unfolding expire_all
  reap_expired_leases w =
      let (t, w') = now w in
      let expired = select (is_expired t) w'.attempts in (length expired, expire_all expired w')

  -- `attempt.lease_expires_at = now()`
  unfoldable pub cut_lease : Text → World → World
  cut_lease attempt_id w = elim (get w.attempts attempt_id) [
    | none ↦ w
    | some attempt ↦
        let (t, w') = now w in
        save_attempt attempt_id (record attempt { lease_expires_at = some t }) w'
  ]

  unfoldable pub cut_leases : List Text → World → World
  cut_leases [] w = w
  cut_leases (attempt_id ∷ rest) w = cut_leases rest (cut_lease attempt_id w)

  -- The filter of the inner query in `reap_dead_workers`.
  abbrev pub is_held : Text → JobAttempt → Bool
  is_held worker_id a = is_held_by worker_id a.worker_id && is_active a.status

  unfoldable pub bury_worker : Text → World → World
  unfolding cut_leases
  bury_worker worker_id w = elim (get w.workers worker_id) [
    | none ↦ w
    | some worker ↦
        cut_leases (select (is_held worker_id) w.attempts)
          (save_worker worker_id (record worker { status = WorkerStatus.dead }) w)
  ]

  unfoldable pub bury_workers : List Text → World → World
  unfolding bury_worker
  bury_workers [] w = w
  bury_workers (worker_id ∷ rest) w = bury_workers rest (bury_worker worker_id w)

  -- The filter of the outer query in `reap_dead_workers`.
  abbrev pub is_stale : ℕ → Worker → Bool
  is_stale threshold r = is_online r.status && ltb r.last_heartbeat_at threshold

  unfoldable pub reap_dead_workers : World → ℕ × World
  unfolding bury_workers
  reap_dead_workers w =
      let (t, w') = now w in
      let threshold = t - config.worker_dead_after_seconds * second in
      let stale = select (is_stale threshold) w'.workers in (length stale, bury_workers stale w')

  -- The filter of the inner query in `reconcile_orphaned_jobs`.
  abbrev pub is_active_of : Text → JobAttempt → Bool
  is_active_of job_id a = text_eq a.job_id job_id && is_active a.status

  unfoldable pub reconcile_row : Text → Job → List Text → ℕ × World → ℕ × World
  reconcile_row job_id job (active ∷ more) (requeued, w) = (requeued, w)
  reconcile_row job_id job [] (requeued, w) =
      let (t, w') = now w in (suc requeued, enqueue job_id job.priority t w')

  unfoldable pub reconcile_job : Text → ℕ × World → ℕ × World
  unfolding reconcile_row
  reconcile_job job_id (requeued, w) = elim (get w.jobs job_id) [
    | none ↦ (requeued, w)
    | some job ↦ reconcile_row job_id job (select (is_active_of job_id) w.attempts) (requeued, w)
  ]

  unfoldable pub reconcile_jobs : List Text → ℕ × World → ℕ × World
  reconcile_jobs [] r = r
  reconcile_jobs (job_id ∷ rest) r = reconcile_jobs rest (reconcile_job job_id r)

  unfoldable pub reconcile_orphaned_jobs : World → ℕ × World
  unfolding reconcile_jobs
  reconcile_orphaned_jobs w = reconcile_jobs (select (λ j. is_queued j.status) w.jobs) (0, w)

-- The dictionary that a tick of the reaper returns.
pub record ReaperCounts : Type 0 where
  pub dead_workers : ℕ
  pub expired_leases : ℕ
  pub promoted : ℕ
  pub reconciled : ℕ

module _ ⦃rt : Runtime⦄ where
  -- none when the promotion raised, which `reaper_loop` logs; what was committed stays.
  unfoldable pub run_reaper_once : World → Option ReaperCounts × World
  run_reaper_once w =
      let (dead_workers, w₁) = reap_dead_workers w in
      let (expired_leases, w₂) = reap_expired_leases w₁ in
      let (promotion, w₃) = promote_delayed_jobs w₂ in
      elim promotion [
        | none ↦ (none, w₃)
        | some promoted ↦
            let (reconciled, w₄) = reconcile_orphaned_jobs w₃ in
            (
              some (record {
                dead_workers = dead_workers;
                expired_leases = expired_leases;
                promoted = promoted;
                reconciled = reconciled;
              }),
              w₄,
            )
      ]
