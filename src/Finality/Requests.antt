-- ===== src/Finality/Requests.antt =====
-- Closed jobs under the routes of backend/app/api and in every run of the server.
use ci_system.Prelude.{
  ◌≡◌, refl, inl, inr, Bool, ◌||◌, true, false, not, codes, Text, text_eq, Option, none, some, List,
  [], ◌∷◌, arith, Option-cases, Bool-cases,
}
use ci_system.Models.{Project, Job, is_active, is_failure}
use ci_system.Runtime.{Runtime, get}
use ci_system.World.{World}
use ci_system.Lease.{renew_lease, mark_running, complete_attempt, claim_next_job, holds_token}
use ci_system.Consistency.{Consistent, is_open}
use ci_system.Consistency.Frames.{
  run_analysis-SameJobs, trigger_analysis-SameJobs, create_project-SameJobs,
  update_pipeline-SameJobs, register_worker-SameJobs, heartbeat-SameJobs,
}
use ci_system.Consistency.Attempts.{store_tail-Consistent}
use ci_system.Consistency.Reachable.{Reach-Consistent}
use ci_system.Api.Attempts.{
  AttemptReport, append_log, renew, complete, after_renewal, store_tail, answer_report, announce,
}
use ci_system.Api.Workers.{claim_job, answer_claim, register_worker, heartbeat}
use ci_system.Api.Projects.{create_project, update_pipeline}
use ci_system.Api.Jobs.{JobCreate, trigger_job, answer_job, fits_integer, trigger_analysis}
use ci_system.Api.Webhooks.{Push, push_job, verify, or_head, github_webhook}
use ci_system.Server.{
  Request, creates_project, updates_pipeline, triggers_job, pushes, registers_worker, beats, claims,
  appends_log, renews, completes, triggers_analysis, runs_background_task, reaps, run_background,
  take_task, serve, Step, serves, loses_redis, Reach,
}
use ci_system.Finality.Defs.{KeepsClosed}
use ci_system.Finality.Leases.{
  claim_next_job-keeps, complete_attempt-keeps, create_and_enqueue_job-keeps,
}
use ci_system.Finality.Sweeps.{run_reaper_once-keeps}

module _ ⦃rt : Runtime⦄ where
  keeps_of_jobs : (w w' : World) → w'.jobs ≡ w.jobs → KeepsClosed w w'
  keeps_of_jobs w w' same k j ej closed = rw same ej

  append_log-jobs : (k t chunk : Text) (w : World) → (append_log k t chunk w).1.jobs ≡ w.jobs
  unfolding append_log
  append_log-jobs k t chunk w = elim (Option-cases (get w.attempts k)) [
    | inl e ↦ rw (append_log, e)
    | inr (a, e) ↦
        elim (Bool-cases (not (holds_token a.lease_token t) || not (is_active a.status))) [
          | inl stale ↦ rw (append_log, e) (rw stale refl)
          | inr valid ↦ rw (append_log, e) (rw valid refl)
        ]
  ]

  renew_lease-jobs : (k t : Text) (w : World) → (renew_lease k t w).1.jobs ≡ w.jobs
  unfolding renew_lease
  renew_lease-jobs k t w = ground arith

  mark_running-jobs : (k t : Text) (w : World) → (mark_running k t w).1.jobs ≡ w.jobs
  unfolding mark_running
  mark_running-jobs k t w = ground arith

  after_renewal-jobs : (k t : Text) (r : Bool × World) → (after_renewal k t r).1.jobs ≡ r.1.jobs
  unfolding after_renewal
  after_renewal-jobs k t (false, w) = refl
  after_renewal-jobs k t (true, w) = mark_running-jobs k t w

  renew-jobs : (k t : Text) (w : World) → (renew k t w).1.jobs ≡ w.jobs
  unfolding renew
  renew-jobs k t w = rw (after_renewal-jobs k t (renew_lease k t w), renew_lease-jobs k t w)

  store_tail-jobs :
      (k t : Text) (tail : Option Text) (w : World) → (store_tail k t tail w).jobs ≡ w.jobs
  unfolding store_tail
  store_tail-jobs k t none w = refl
  store_tail-jobs k t (some []) w = refl
  store_tail-jobs k t (some (x ∷ xs)) w = ground arith

  pub answer_report-jobs : (r : Option (Text × Bool) × World) → (answer_report r).1.jobs ≡ r.1.jobs
  unfolding answer_report announce
  answer_report-jobs (none, w) = refl
  answer_report-jobs (some (k, q), w) = elim (Option-cases (get w.attempts k)) [
    | inl e ↦ rw (answer_report, e)
    | inr (a, e) ↦ elim (Bool-cases (is_failure a.status)) [
      | inl f ↦ rw (answer_report, e) (rw (announce, f) refl)
      | inr s ↦ rw (answer_report, e) (rw (announce, s) refl)
    ]
  ]

  complete-keeps :
      (k t : Text) (p : AttemptReport) (w : World)
      → Consistent w
      → KeepsClosed w (complete k t p w).1
  unfolding complete
  complete-keeps k t p w c i j ej closed =
      let w' = store_tail k t p.logs_tail w in
      rw (answer_report-jobs (complete_attempt k t p.report w')) (
        complete_attempt-keeps k t p.report w' (store_tail-Consistent k t p.logs_tail w c) i j
          (rw (store_tail-jobs k t p.logs_tail w) ej) closed)

  answer_claim-jobs : (r : Option Text × World) → (answer_claim r).1.jobs ≡ r.1.jobs
  unfolding answer_claim
  answer_claim-jobs (none, w) = refl
  answer_claim-jobs (some k, w) = refl

  claim_job-keeps : (k : Text) (w : World) → KeepsClosed w (claim_job k w).1
  unfolding claim_job
  claim_job-keeps k w i j ej closed = elim (Option-cases (get w.workers k)) [
    | inl e ↦ rw (claim_job, e) ej
    | inr (r, e) ↦
        rw (claim_job, e)
          (rw (answer_claim-jobs (claim_next_job k r w)) (claim_next_job-keeps k r w i j ej closed))
  ]

  answer_job-keeps :
      (r : Option Text × World) (w : World) → KeepsClosed w r.1 → KeepsClosed w (answer_job r).1
  answer_job-keeps (none, w') w h = h
  answer_job-keeps (some k, w') w h = h

  trigger_job-keeps :
      (k : Text) (p : JobCreate) (w : World) → Consistent w → KeepsClosed w (trigger_job k p w).1
  unfolding trigger_job
  trigger_job-keeps k p w c i j ej closed = elim (Option-cases (get w.projects k)) [
    | inl e ↦ rw (trigger_job, e) ej
    | inr (r, e) ↦ elim (Bool-cases (fits_integer p.priority)) [
      | inr outside ↦ rw (trigger_job, e) (rw outside ej)
      | inl fits ↦
          rw (trigger_job, e)
            (rw fits
              (answer_job-keeps _ w (create_and_enqueue_job-keeps k r _ _ _ _ w c) i j ej closed))
    ]
  ]

  push_job-keeps :
      (k : Text) (r : Project) (p : Push) (w : World)
      → Consistent w
      → KeepsClosed w (push_job k r p w).1
  unfolding push_job
  push_job-keeps k r p w c i j ej closed = elim (Bool-cases (text_eq p.event (codes "push"))) [
    | inr other ↦ rw (push_job, other) ej
    | inl push ↦ elim (Bool-cases (text_eq (or_head p.after p.head_commit_id) [])) [
      | inl e ↦ rw (push_job, push) (rw e ej)
      | inr e ↦
          rw (push_job, push)
            (rw e
              (answer_job-keeps _ w (create_and_enqueue_job-keeps k r _ _ _ _ w c) i j ej closed))
    ]
  ]

  github_webhook-keeps :
      (k : Text) (t : Option Text) (p : Push) (w : World)
      → Consistent w
      → KeepsClosed w (github_webhook k t p w).1
  unfolding github_webhook
  github_webhook-keeps k t p w c i j ej closed = elim (Option-cases (get w.projects k)) [
    | inl e ↦ rw (github_webhook, e) ej
    | inr (r, e) ↦ elim (Bool-cases (verify r t)) [
      | inr refused ↦ rw (github_webhook, e) (rw refused ej)
      | inl trusted ↦ rw (github_webhook, e) (rw trusted (push_job-keeps k r p w c i j ej closed))
    ]
  ]

  run_background-jobs :
      (o : Option (Text × List Text)) (w : World) → (run_background o w).jobs ≡ w.jobs
  unfolding run_background
  run_background-jobs none w = refl
  run_background-jobs (some (k, ks)) w = (run_analysis-SameJobs k (record w { background = ks })).0

  serve-keeps : (q : Request) (w : World) → Consistent w → KeepsClosed w (serve q w)
  unfolding serve
  serve-keeps (creates_project p) w c =
      keeps_of_jobs w (create_project p w).1 (create_project-SameJobs p w).0
  serve-keeps (updates_pipeline k y) w c =
      keeps_of_jobs w (update_pipeline k y w).1 (update_pipeline-SameJobs k y w).0
  serve-keeps (triggers_job k p) w c = trigger_job-keeps k p w c
  serve-keeps (pushes k t p) w c = github_webhook-keeps k t p w c
  serve-keeps (registers_worker s n) w c =
      keeps_of_jobs w (register_worker s n w).1 (register_worker-SameJobs s n w).0
  serve-keeps (beats k) w c = keeps_of_jobs w (heartbeat k w).1 (heartbeat-SameJobs k w).0
  serve-keeps (claims k) w c = claim_job-keeps k w
  serve-keeps (appends_log k t s) w c =
      keeps_of_jobs w (append_log k t s w).1 (append_log-jobs k t s w)
  serve-keeps (renews k t) w c = keeps_of_jobs w (renew k t w).1 (renew-jobs k t w)
  serve-keeps (completes k t p) w c = complete-keeps k t p w c
  serve-keeps (triggers_analysis k) w c =
      keeps_of_jobs w (trigger_analysis k w).1 (trigger_analysis-SameJobs k w).0
  serve-keeps (runs_background_task n) w c =
      keeps_of_jobs w (run_background (take_task n w.background) w)
        (run_background-jobs (take_task n w.background) w)
  serve-keeps reaps w c = run_reaper_once-keeps w c

  -- In a reachable world, a job that is neither queued nor running keeps its row in every next
  -- step: a request, a background task, a tick of the reaper or a loss of Redis.
  pub verdict_is_final :
      {v w : World} (k : Text) (j : Job)
      → Reach v
      → Step v w
      → get v.jobs k ≡ some j
      → is_open j.status ≡ false
      → get w.jobs k ≡ some j
  verdict_is_final {v} k j r (serves q) ej closed =
      serve-keeps q v (Reach-Consistent r) k j ej closed
  verdict_is_final k j r (loses_redis queue delayed) ej closed = ej
