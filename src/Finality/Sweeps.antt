-- ===== src/Finality/Sweeps.antt =====
-- Closed jobs under a tick of the reaper (backend/app/scheduler/scheduler.py).
use ci_system.Prelude.{
  ◌∙◌, ℕ, suc, ◌*◌, ◌-◌, ◌≡◌, refl, inl, inr, true, Text, some, List, [], ◌∷◌, arith, Option-cases,
  Bool-cases, leb,
}
use ci_system.Prelude.Int.{pos}
use ci_system.Prelude.Lists.{Distinct, All, All-Occurs}
use ci_system.Config.{second}
use ci_system.Models.{Job, JobAttempt, JobStatus, is_active}
use ci_system.Runtime.{Runtime, config, get, put, get-put, select}
use ci_system.World.{World, save_attempt}
use ci_system.RedisClient.{enqueue}
use ci_system.DelayedEntry.{rpartition, read_int}
use ci_system.Lease.{maybe_retry}
use ci_system.Consistency.{Consistent, Consistent-later}
use ci_system.Reaper.{
  promote_entry, promote_all, promote_delayed_jobs, expire_row, expire_attempt, expire_all,
  mark_errored, is_expired, reap_expired_leases, cut_lease, cut_leases, is_held, bury_worker,
  bury_workers, is_stale, reap_dead_workers, run_reaper_once,
}
use ci_system.Consistency.Expiry.{
  IsActiveAt, still_active, selected, expire_attempt-Consistent, reap_expired_leases-Consistent,
}
use ci_system.Consistency.Burial.{reap_dead_workers-Consistent}
use ci_system.Consistency.Queues.{promote_delayed_jobs-Consistent, reconcile_finds_none}
use ci_system.Finality.Defs.{KeepsClosed, put-keeps, open_of_active}

module _ ⦃rt : Runtime⦄ where
  mark_errored-keeps :
      (k : Text) (a a' : JobAttempt) (y : Job) (w : World)
      → Consistent w
      → get w.attempts k ≡ some a
      → get w.jobs a.job_id ≡ some y
      → is_active a.status ≡ true
      → KeepsClosed w (
          mark_errored a.job_id y (
            maybe_retry a.job_id y a.attempt_number
              (save_attempt k a' (record w { readings = suc w.readings }))))
  unfolding mark_errored maybe_retry
  mark_errored-keeps k a a' y w c ea ey act i j ej closed =
      let op = open_of_active k a y w c ea ey act in
      let errored : Job = record y { status = JobStatus.errored } in
      let kept = put-keeps w.jobs a.job_id y errored ey op i j ej closed in
      elim (Bool-cases (leb config.max_job_attempts a.attempt_number)) [
        | inl spent ↦
            rw (maybe_retry, spent)
              (ground (
                arith,
                kept,
                get-put w.jobs a.job_id i errored,
                get-put (put w.jobs a.job_id errored) a.job_id i errored,
              ))
        | inr left ↦ rw (maybe_retry, left) (put-keeps w.jobs a.job_id y _ ey op i j ej closed)
      ]

  expire_attempt-KeepsClosed :
      (k : Text) (w : World) → Consistent w → IsActiveAt w k → KeepsClosed w (expire_attempt k w)
  unfolding expire_attempt
  expire_attempt-KeepsClosed k w c (a, ea, act) i j ej closed =
      elim (Option-cases (get w.jobs a.job_id)) [
        | inl e ↦ rw (expire_attempt, ea) (rw (expire_row, e) ej)
        | inr (y, e) ↦
            rw (expire_attempt, ea)
              (rw (expire_row, e) (mark_errored-keeps k a _ y w c ea e act i j ej closed))
      ]

  expire_all-keeps :
      (ks : List Text) (w : World)
      → Distinct ks
      → All (IsActiveAt w) ks
      → Consistent w
      → KeepsClosed w (expire_all ks w)
  unfolding expire_all
  expire_all-keeps [] w d h c i j ej closed = ej
  expire_all-keeps (k ∷ ks) w (new, d) (here, h) c i j ej closed =
      expire_all-keeps ks (expire_attempt k w) d (still_active ks k w c new h)
        (expire_attempt-Consistent k w c here) i j
        (expire_attempt-KeepsClosed k w c here i j ej closed) closed

  reap_expired_leases-keeps : (w : World) → Consistent w → KeepsClosed w (reap_expired_leases w).1
  unfolding reap_expired_leases
  reap_expired_leases-keeps w c =
      let t = rt.host.clock w.readings in
      let w' : World = record w { readings = suc w.readings } in
      expire_all-keeps (select (is_expired t) w.attempts) w'
        (rt.database.select_distinct (is_expired t) w.attempts)
        (All-Occurs (IsActiveAt w') (select (is_expired t) w.attempts) (λ k o. selected t k w o))
        (Consistent-later (suc w.readings) (omega arith) c)

  cut_leases-jobs : (ks : List Text) (w : World) → (cut_leases ks w).jobs ≡ w.jobs
  unfolding cut_leases cut_lease
  cut_leases-jobs [] w = refl
  cut_leases-jobs (k ∷ ks) w = cut_leases-jobs ks (cut_lease k w) ∙ cut_lease-jobs k w
    where
      cut_lease-jobs : (k : Text) (w : World) → (cut_lease k w).jobs ≡ w.jobs
      cut_lease-jobs k w = elim (Option-cases (get w.attempts k)) [
        | inl e ↦ rw (cut_lease, e)
        | inr (a, e) ↦ rw (cut_lease, e) refl
      ]

  bury_workers-jobs : (ks : List Text) (w : World) → (bury_workers ks w).jobs ≡ w.jobs
  unfolding bury_workers bury_worker
  bury_workers-jobs [] w = refl
  bury_workers-jobs (k ∷ ks) w = bury_workers-jobs ks (bury_worker k w) ∙ bury_worker-jobs k w
    where
      bury_worker-jobs : (k : Text) (w : World) → (bury_worker k w).jobs ≡ w.jobs
      bury_worker-jobs k w = elim (Option-cases (get w.workers k)) [
        | inl e ↦ rw (bury_worker, e)
        | inr (r, e) ↦ rw (bury_worker, e) (cut_leases-jobs (select (is_held k) w.attempts) _)
      ]

  promote_all-jobs :
      (entries : List Text) (n : ℕ) (w : World) → (promote_all entries n w).1.jobs ≡ w.jobs
  unfolding promote_all promote_entry enqueue
  promote_all-jobs [] n w = refl
  promote_all-jobs (entry ∷ entries) n w = elim (Option-cases (read_int (rpartition entry).1)) [
    | inl e ↦ rw (promote_all, promote_entry, e)
    | inr (p, e) ↦ rw (promote_all, promote_entry, e) (promote_all-jobs entries (suc n) _)
  ]

  reap_dead_workers-jobs : (w : World) → (reap_dead_workers w).1.jobs ≡ w.jobs
  unfolding reap_dead_workers
  reap_dead_workers-jobs w =
      bury_workers-jobs
        (select (is_stale (rt.host.clock w.readings - config.worker_dead_after_seconds * second))
          w.workers)
        (record w { readings = suc w.readings })

  promote_delayed_jobs-jobs : (w : World) → (promote_delayed_jobs w).1.jobs ≡ w.jobs
  unfolding promote_delayed_jobs
  promote_delayed_jobs-jobs w =
      promote_all-jobs
        (rt.sorted_set.zrangebyscore w.delayed (pos 0) (pos (rt.host.clock w.readings))) 0
        (record w { readings = suc w.readings })

  -- A tick of the reaper keeps the closed jobs.
  pub run_reaper_once-keeps : (w : World) → Consistent w → KeepsClosed w (run_reaper_once w).1
  unfolding run_reaper_once
  run_reaper_once-keeps w c i j ej closed =
      let w₁ = (reap_dead_workers w).1 in
      let c₁ = reap_dead_workers-Consistent w c in
      let w₂ = (reap_expired_leases w₁).1 in
      let c₂ = reap_expired_leases-Consistent w₁ c₁ in
      let (promotion, w₃) = promote_delayed_jobs w₂ in
      let c₃ = promote_delayed_jobs-Consistent w₂ c₂ in
      let e₁ : get w₁.jobs i ≡ some j = rw (reap_dead_workers-jobs w) ej in
      let e₂ = reap_expired_leases-keeps w₁ c₁ i j e₁ closed in
      let e₃ : get w₃.jobs i ≡ some j = rw (promote_delayed_jobs-jobs w₂) e₂ in
      elim (Option-cases promotion) [
        | inl e ↦ rw (run_reaper_once, e) e₃
        | inr (n, e) ↦ rw (run_reaper_once, e) (rw (reconcile_finds_none w₃ c₃) e₃)
      ]
