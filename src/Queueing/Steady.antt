-- ===== src/Queueing/Steady.antt =====
-- The delayed set while Redis loses nothing.
use ci_system.Prelude.{
  ℕ, suc, inl, inr, Bool, true, false, Text, List, [], ◌∷◌, arith, Option-cases, Bool-cases, leb,
}
use ci_system.Prelude.Int.{pos}
use ci_system.Models.{Job, JobAttempt}
use ci_system.Runtime.{Runtime, Zset, config, get, select}
use ci_system.World.{World}
use ci_system.RedisClient.{enqueue}
use ci_system.DelayedEntry.{rpartition, read_int}
use ci_system.Lease.{
  Report, is_zero, maybe_retry, finish_attempt, complete_valid, complete_attempt,
  schedule_delayed_requeue,
}
use ci_system.Api.Attempts.{AttemptReport, complete, store_tail}
use ci_system.Api.Workers.{register_worker}
use ci_system.Reaper.{
  promote_entry, promote_all, promote_delayed_jobs, mark_errored, expire_row, expire_attempt,
  expire_all, is_expired, reap_dead_workers, reap_expired_leases, run_reaper_once,
}
use ci_system.Server.{
  Request, creates_project, updates_pipeline, triggers_job, pushes, registers_worker, beats, claims,
  appends_log, renews, completes, triggers_analysis, runs_background_task, reaps, take_task, serve,
  start, Reach, begins, follows, serves,
}
use ci_system.Reporting.Acceptance.{report_cases, complete-of-HoldsLease}
use ci_system.Queueing.Delayed.{
  create_project-delayed, update_pipeline-delayed, trigger_job-delayed, github_webhook-delayed,
  heartbeat-delayed, claim_job-delayed,
}
use ci_system.Queueing.Kept.{
  append_log-delayed, renew-delayed, store_tail-delayed, answer_report-delayed,
  run_background-delayed, trigger_analysis-delayed, reap_dead_workers-delayed,
  reconcile_orphaned_jobs-delayed,
}
use ci_system.Queueing.Promotion.{IsMember, IsEntry, zadd-IsEntry}

module _ ⦃rt : Runtime⦄ where
  -- Every member of the delayed set is an entry of a retry.
  abbrev pub Entries : Zset → Type 0
  Entries z = (k : Text) → IsMember z k → IsEntry k

  zrem-Entries : (z : Zset) (e : Text) → Entries z → Entries (rt.sorted_set.zrem z e)
  zrem-Entries z e h k m = h k (λ gone. m (rw (rt.sorted_set.score_zrem z e k) (ground arith)))

  maybe_retry-Entries :
      (i : Text) (j : Job) (n : ℕ) (w : World)
      → Entries w.delayed
      → Entries (maybe_retry i j n w).1.delayed
  unfolding maybe_retry schedule_delayed_requeue
  maybe_retry-Entries i j n w h = elim (Bool-cases (leb config.max_job_attempts n)) [
    | inl spent ↦ rw (maybe_retry, spent) h
    | inr left ↦ rw (maybe_retry, left) (zadd-IsEntry w.delayed i j.priority _ h)
  ]

  finish_attempt-Entries :
      (k : Text) (a : JobAttempt) (j : Job) (r : Report) (w : World)
      → Entries w.delayed
      → Entries (finish_attempt k a j r w).1.delayed
  unfolding finish_attempt
  finish_attempt-Entries k a j r w h = elim (Bool-cases (is_zero r.exit_code)) [
    | inl z ↦ rw (finish_attempt, z) h
    | inr nz ↦ elim (Bool-cases r.is_permanent_failure) [
      | inl p ↦ rw (finish_attempt, nz, p) h
      | inr np ↦ rw (finish_attempt, nz, np) (maybe_retry-Entries a.job_id j a.attempt_number _ h)
    ]
  ]

  complete_attempt-Entries :
      (k t : Text) (r : Report) (w : World)
      → Entries w.delayed
      → Entries (complete_attempt k t r w).1.delayed
  unfolding complete_valid
  complete_attempt-Entries k t r w h = elim (report_cases k t r w) [
    | inl (inl same) ↦ rw same h
    | inl (inr later) ↦ rw later h
    | inr (a, e, lease) ↦ elim (Option-cases (get w.jobs a.job_id)) [
      | inl f ↦ rw (complete-of-HoldsLease k t r w a e lease) (rw (complete_valid, f) h)
      | inr (j, f) ↦ rw (complete-of-HoldsLease k t r w a e lease) (
          rw (complete_valid, f)
            (finish_attempt-Entries k a j r (record w { readings = suc w.readings }) h))
    ]
  ]

  complete-Entries :
      (k t : Text) (p : AttemptReport) (w : World)
      → Entries w.delayed
      → Entries (complete k t p w).1.delayed
  unfolding complete
  complete-Entries k t p w h =
      let w' = store_tail k t p.logs_tail w in
      rw (answer_report-delayed (complete_attempt k t p.report w'))
        (complete_attempt-Entries k t p.report w' (rw (store_tail-delayed k t p.logs_tail w) h))

  mark_errored-Entries :
      (i : Text) (j : Job) (r : Bool × World)
      → Entries r.1.delayed
      → Entries (mark_errored i j r).delayed
  unfolding mark_errored
  mark_errored-Entries i j (true, w) h = h
  mark_errored-Entries i j (false, w) h = h

  expire_attempt-Entries :
      (k : Text) (w : World) → Entries w.delayed → Entries (expire_attempt k w).delayed
  unfolding expire_attempt
  expire_attempt-Entries k w h = elim (Option-cases (get w.attempts k)) [
    | inl e ↦ rw (expire_attempt, e) h
    | inr (a, e) ↦ elim (Option-cases (get w.jobs a.job_id)) [
      | inl f ↦ rw (expire_attempt, e) (rw (expire_row, f) h)
      | inr (j, f) ↦
          rw (expire_attempt, e)
            (rw (expire_row, f)
              (mark_errored-Entries a.job_id j _
                (maybe_retry-Entries a.job_id j a.attempt_number _ h)))
    ]
  ]

  expire_all-Entries :
      (ks : List Text) (w : World) → Entries w.delayed → Entries (expire_all ks w).delayed
  unfolding expire_all
  expire_all-Entries [] w h = h
  expire_all-Entries (k ∷ ks) w h =
      expire_all-Entries ks (expire_attempt k w) (expire_attempt-Entries k w h)

  pub reap_expired_leases-Entries :
      (w : World) → Entries w.delayed → Entries (reap_expired_leases w).1.delayed
  unfolding reap_expired_leases
  reap_expired_leases-Entries w h =
      expire_all-Entries (select (is_expired (rt.host.clock w.readings)) w.attempts)
        (record w { readings = suc w.readings }) h

  promote_all-Entries :
      (ready : List Text) (n : ℕ) (w : World)
      → Entries w.delayed
      → Entries (promote_all ready n w).1.delayed
  unfolding promote_all promote_entry enqueue
  promote_all-Entries [] n w h = h
  promote_all-Entries (e ∷ ready) n w h = elim (Option-cases (read_int (rpartition e).1)) [
    | inl f ↦ rw (promote_all, promote_entry, f) h
    | inr (p, f) ↦
        rw (promote_all, promote_entry, f)
          (promote_all-Entries ready (suc n) _ (zrem-Entries w.delayed e h))
  ]

  run_reaper_once-Entries : (w : World) → Entries w.delayed → Entries (run_reaper_once w).1.delayed
  unfolding run_reaper_once promote_delayed_jobs
  run_reaper_once-Entries w h =
      let w₁ = (reap_dead_workers w).1 in
      let h₁ : Entries w₁.delayed = rw (reap_dead_workers-delayed w) h in
      let w₂ = (reap_expired_leases w₁).1 in
      let h₂ = reap_expired_leases-Entries w₁ h₁ in
      let promotion = promote_delayed_jobs w₂ in
      let w₃ = promotion.1 in
      let h₃ : Entries w₃.delayed =
        promote_all-Entries
          (rt.sorted_set.zrangebyscore w₂.delayed (pos 0) (pos (rt.host.clock w₂.readings))) 0
          (record w₂ { readings = suc w₂.readings }) h₂ in
      elim (Option-cases promotion.0) [
        | inl e ↦ rw (run_reaper_once, e) h₃
        | inr (n, e) ↦ rw (run_reaper_once, e) (rw (reconcile_orphaned_jobs-delayed w₃) h₃)
      ]

  serve-Entries : (q : Request) (w : World) → Entries w.delayed → Entries (serve q w).delayed
  unfolding serve register_worker
  serve-Entries (creates_project p) w h = rw (create_project-delayed p w) h
  serve-Entries (updates_pipeline k y) w h = rw (update_pipeline-delayed k y w) h
  serve-Entries (triggers_job k p) w h = rw (trigger_job-delayed k p w) h
  serve-Entries (pushes k t p) w h = rw (github_webhook-delayed k t p w) h
  serve-Entries (registers_worker s n) w h = h
  serve-Entries (beats k) w h = rw (heartbeat-delayed k w) h
  serve-Entries (claims k) w h = rw (claim_job-delayed k w) h
  serve-Entries (appends_log k t s) w h = rw (append_log-delayed k t s w) h
  serve-Entries (renews k t) w h = rw (renew-delayed k t w) h
  serve-Entries (completes k t p) w h = complete-Entries k t p w h
  serve-Entries (triggers_analysis k) w h = rw (trigger_analysis-delayed k w) h
  serve-Entries (runs_background_task n) w h =
      rw (run_background-delayed (take_task n w.background) w) h
  serve-Entries reaps w h = run_reaper_once-Entries w h

  -- The worlds that the server reaches while Redis keeps its sets.
  pub data Steady : World → Type 0 where
    starts : Steady start
    goes_on : {w : World} → Steady w → (q : Request) → Steady (serve q w)

  pub Steady-Reach : {w : World} → Steady w → Reach w
  Steady-Reach starts = begins
  Steady-Reach (goes_on s q) = follows (Steady-Reach s) (serves q)

  pub Steady-Entries : {w : World} → Steady w → Entries w.delayed
  unfolding start
  Steady-Entries starts = λ k m. absurd (m (rt.sorted_set.score_empty k))
  Steady-Entries (goes_on {w} s q) = serve-Entries q w (Steady-Entries s)
