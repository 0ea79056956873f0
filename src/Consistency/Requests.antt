-- ===== src/Consistency/Requests.antt =====
-- The invariant under every request of Server.
use ci_system.Prelude.{
  codes, inl, inr, Text, text_eq, Option, none, some, List, [], Option-cases, Bool-cases,
}
use ci_system.Models.{Project}
use ci_system.Runtime.{Runtime, get}
use ci_system.World.{World}
use ci_system.Lease.{claim_next_job}
use ci_system.Consistency.Defs.{Consistent}
use ci_system.Consistency.Leases.{claim_next_job-Consistent, create_and_enqueue_job-Consistent}
use ci_system.Consistency.Expiry.{reap_expired_leases-Consistent}
use ci_system.Consistency.Burial.{reap_dead_workers-Consistent}
use ci_system.Consistency.Queues.{promote_delayed_jobs-Consistent, reconcile_finds_none}
use ci_system.Reaper.{run_reaper_once, reap_dead_workers, reap_expired_leases, promote_delayed_jobs}
use ci_system.Api.Attempts.{run_analysis}
use ci_system.Api.Workers.{claim_job, answer_claim}
use ci_system.Api.Jobs.{JobCreate, trigger_job, answer_job, fits_integer}
use ci_system.Api.Webhooks.{Push, push_job, verify, or_head, github_webhook}
use ci_system.Api.Workers.{register_worker, heartbeat}
use ci_system.Api.Projects.{create_project, update_pipeline}
use ci_system.Api.Jobs.{trigger_analysis}
use ci_system.Server.{
  Request, creates_project, updates_pipeline, triggers_job, pushes, registers_worker, beats, claims,
  appends_log, renews, completes, triggers_analysis, runs_background_task, reaps, run_background,
  take_task, serve,
}
use ci_system.Consistency.Later.{Consistent-SameJobs}
use ci_system.Consistency.Frames.{
  run_analysis-SameJobs, trigger_analysis-SameJobs, create_project-SameJobs,
  update_pipeline-SameJobs, register_worker-SameJobs, heartbeat-SameJobs,
}
use ci_system.Consistency.Attempts.{renew-Consistent, append_log-Consistent, complete-Consistent}

module _ ⦃rt : Runtime⦄ where
  run_reaper_once-Consistent : (w : World) → Consistent w → Consistent (run_reaper_once w).1
  unfolding run_reaper_once
  run_reaper_once-Consistent w c =
      let w₁ = (reap_dead_workers w).1 in
      let w₂ = (reap_expired_leases w₁).1 in
      let (promotion, w₃) = promote_delayed_jobs w₂ in
      let c₃ : Consistent w₃ =
        promote_delayed_jobs-Consistent w₂
          (reap_expired_leases-Consistent w₁ (reap_dead_workers-Consistent w c)) in
      elim (Option-cases promotion) [
        | inl e ↦ rw (run_reaper_once, e) c₃
        | inr (n, e) ↦ rw (run_reaper_once, e) (rw (reconcile_finds_none w₃ c₃) c₃)
      ]

  claim_job-Consistent : (k : Text) (w : World) → Consistent w → Consistent (claim_job k w).1
  unfolding claim_job
  claim_job-Consistent k w c = elim (Option-cases (get w.workers k)) [
    | inl e ↦ rw (claim_job, e) c
    | inr (r, e) ↦
        rw (claim_job, e) (answered (claim_next_job k r w) (claim_next_job-Consistent k r w c))
  ]
    where
      answered : (r : Option Text × World) → Consistent r.1 → Consistent (answer_claim r).1
      answered (none, w') c' = c'
      answered (some x, w') c' = c'

  answer_job-Consistent : (r : Option Text × World) → Consistent r.1 → Consistent (answer_job r).1
  answer_job-Consistent (none, w') c' = c'
  answer_job-Consistent (some x, w') c' = c'

  trigger_job-Consistent :
      (k : Text) (p : JobCreate) (w : World) → Consistent w → Consistent (trigger_job k p w).1
  unfolding trigger_job
  trigger_job-Consistent k p w c = elim (Option-cases (get w.projects k)) [
    | inl e ↦ rw (trigger_job, e) c
    | inr (r, e) ↦ elim (Bool-cases (fits_integer p.priority)) [
      | inr outside ↦ rw (trigger_job, e) (rw outside c)
      | inl fits ↦
          rw (trigger_job, e)
            (rw fits (answer_job-Consistent _ (create_and_enqueue_job-Consistent k r _ _ _ _ w c)))
    ]
  ]

  push_job-Consistent :
      (k : Text) (r : Project) (p : Push) (w : World)
      → Consistent w
      → Consistent (push_job k r p w).1
  unfolding push_job
  push_job-Consistent k r p w c = elim (Bool-cases (text_eq p.event (codes "push"))) [
    | inr other ↦ rw (push_job, other) c
    | inl push ↦ elim (Bool-cases (text_eq (or_head p.after p.head_commit_id) [])) [
      | inl e ↦ rw (push_job, push) (rw e c)
      | inr e ↦
          rw (push_job, push)
            (rw e (answer_job-Consistent _ (create_and_enqueue_job-Consistent k r _ _ _ _ w c)))
    ]
  ]

  github_webhook-Consistent :
      (k : Text) (t : Option Text) (p : Push) (w : World)
      → Consistent w
      → Consistent (github_webhook k t p w).1
  unfolding github_webhook
  github_webhook-Consistent k t p w c = elim (Option-cases (get w.projects k)) [
    | inl e ↦ rw (github_webhook, e) c
    | inr (r, e) ↦ elim (Bool-cases (verify r t)) [
      | inr refused ↦ rw (github_webhook, e) (rw refused c)
      | inl trusted ↦ rw (github_webhook, e) (rw trusted (push_job-Consistent k r p w c))
    ]
  ]

  run_background-Consistent :
      (o : Option (Text × List Text)) (w : World) → Consistent w → Consistent (run_background o w)
  unfolding run_background
  run_background-Consistent none w c = c
  run_background-Consistent (some (k, ks)) w c =
      Consistent-SameJobs (record w { background = ks })
        (run_analysis k (record w { background = ks }))
        (run_analysis-SameJobs k (record w { background = ks })) c

  -- Every request keeps the invariant.
  pub serve-Consistent : (q : Request) (w : World) → Consistent w → Consistent (serve q w)
  unfolding serve
  serve-Consistent (creates_project p) w c =
      Consistent-SameJobs w (create_project p w).1 (create_project-SameJobs p w) c
  serve-Consistent (updates_pipeline k y) w c =
      Consistent-SameJobs w (update_pipeline k y w).1 (update_pipeline-SameJobs k y w) c
  serve-Consistent (triggers_job k p) w c = trigger_job-Consistent k p w c
  serve-Consistent (pushes k t p) w c = github_webhook-Consistent k t p w c
  serve-Consistent (registers_worker s n) w c =
      Consistent-SameJobs w (register_worker s n w).1 (register_worker-SameJobs s n w) c
  serve-Consistent (beats k) w c =
      Consistent-SameJobs w (heartbeat k w).1 (heartbeat-SameJobs k w) c
  serve-Consistent (claims k) w c = claim_job-Consistent k w c
  serve-Consistent (appends_log k t s) w c = append_log-Consistent k t s w c
  serve-Consistent (renews k t) w c = renew-Consistent k t w c
  serve-Consistent (completes k t p) w c = complete-Consistent k t p w c
  serve-Consistent (triggers_analysis k) w c =
      Consistent-SameJobs w (trigger_analysis k w).1 (trigger_analysis-SameJobs k w) c
  serve-Consistent (runs_background_task n) w c =
      run_background-Consistent (take_task n w.background) w c
  serve-Consistent reaps w c = run_reaper_once-Consistent w c
