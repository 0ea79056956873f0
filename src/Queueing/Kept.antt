-- ===== src/Queueing/Kept.antt =====
-- Reports, renewals, analyses and the sweep of dead workers leave the delayed set alone.
use ci_system.Prelude.{
  ℕ, suc, ◌-◌, ◌*◌, ◌≡◌, refl, ◌∙◌, inl, inr, Bool, ◌||◌, true, false, not, Text, Option, none,
  some, List, [], ◌∷◌, arith, Option-cases, Bool-cases,
}
use ci_system.Config.{second}
use ci_system.Models.{Job, JobAttempt, AiAnalysis, is_active, is_failure, is_queued}
use ci_system.Runtime.{Runtime, config, get, select}
use ci_system.World.{World}
use ci_system.Lease.{renew_lease, mark_running, holds_token}
use ci_system.Ai.Analyzer.{
  Provided, Provider, provided, provider_error, Verdict, valid, rejected, type_error,
  parse_and_validate, pending_analysis, provider_name, analyze_attempt, ask_provider, record_answer,
  record_verdict, get_provider, call_provider, Analyzed, returned, raised,
}
use ci_system.Ai.Schemas.{FailureAnalysisRequest}
use ci_system.Api.Attempts.{
  append_log, renew, after_renewal, store_tail, answer_report, announce, run_analysis,
}
use ci_system.Api.Jobs.{answer_analysis, trigger_analysis}
use ci_system.Reaper.{
  cut_lease, cut_leases, is_held, bury_worker, bury_workers, is_stale, reap_dead_workers,
  reconcile_row, reconcile_job, reconcile_jobs, reconcile_orphaned_jobs,
}
use ci_system.RedisClient.{enqueue}
use ci_system.Server.{run_background}

module _ ⦃rt : Runtime⦄ where
  pub append_log-delayed :
      (k t chunk : Text) (w : World) → (append_log k t chunk w).1.delayed ≡ w.delayed
  unfolding append_log
  append_log-delayed k t chunk w = elim (Option-cases (get w.attempts k)) [
    | inl e ↦ rw (append_log, e)
    | inr (a, e) ↦
        elim (Bool-cases (not (holds_token a.lease_token t) || not (is_active a.status))) [
          | inl stale ↦ rw (append_log, e) (rw stale refl)
          | inr lawful ↦ rw (append_log, e) (rw lawful refl)
        ]
  ]

  renew_lease-delayed : (k t : Text) (w : World) → (renew_lease k t w).1.delayed ≡ w.delayed
  unfolding renew_lease
  renew_lease-delayed k t w = ground arith

  mark_running-delayed : (k t : Text) (w : World) → (mark_running k t w).1.delayed ≡ w.delayed
  unfolding mark_running
  mark_running-delayed k t w = ground arith

  after_renewal-delayed :
      (k t : Text) (r : Bool × World) → (after_renewal k t r).1.delayed ≡ r.1.delayed
  unfolding after_renewal
  after_renewal-delayed k t (false, w) = refl
  after_renewal-delayed k t (true, w) = mark_running-delayed k t w

  pub renew-delayed : (k t : Text) (w : World) → (renew k t w).1.delayed ≡ w.delayed
  unfolding renew
  renew-delayed k t w =
      rw (after_renewal-delayed k t (renew_lease k t w), renew_lease-delayed k t w)

  pub store_tail-delayed :
      (k t : Text) (tail : Option Text) (w : World) → (store_tail k t tail w).delayed ≡ w.delayed
  unfolding store_tail
  store_tail-delayed k t none w = refl
  store_tail-delayed k t (some []) w = refl
  store_tail-delayed k t (some (x ∷ xs)) w = ground arith

  pub answer_report-delayed :
      (r : Option (Text × Bool) × World) → (answer_report r).1.delayed ≡ r.1.delayed
  unfolding answer_report announce
  answer_report-delayed (none, w) = refl
  answer_report-delayed (some (k, q), w) = elim (Option-cases (get w.attempts k)) [
    | inl e ↦ rw (answer_report, e)
    | inr (a, e) ↦ elim (Bool-cases (is_failure a.status)) [
      | inl f ↦ rw (answer_report, e) (rw (announce, f) refl)
      | inr s ↦ rw (answer_report, e) (rw (announce, s) refl)
    ]
  ]

  record_verdict-delayed :
      (k raw : Text) (r : AiAnalysis) (v : Verdict) (w : World)
      → (record_verdict k r raw v w).1.delayed ≡ w.delayed
  unfolding record_verdict
  record_verdict-delayed k raw r (valid x) w = refl
  record_verdict-delayed k raw r rejected w = refl
  record_verdict-delayed k raw r type_error w = refl

  record_answer-delayed :
      (k : Text) (r : AiAnalysis) (p : Provided Text) (w : World)
      → (record_answer k r p w).1.delayed ≡ w.delayed
  unfolding record_answer
  record_answer-delayed k r (provided raw) w =
      record_verdict-delayed k raw r (parse_and_validate raw) w
  record_answer-delayed k r (provider_error m) w = refl

  ask_provider-delayed :
      (k : Text) (q : FailureAnalysisRequest) (p : Provided Provider) (w : World)
      → (ask_provider k q p w).1.delayed ≡ w.delayed
  unfolding ask_provider
  ask_provider-delayed k q (provided p) w = record_answer-delayed k asked (call_provider p q) w
    where
      asked : AiAnalysis
      asked = record pending_analysis {
        provider = some (provider_name p);
        model = some config.ai_model;
      }
  ask_provider-delayed k q (provider_error m) w = refl

  analyze_attempt-delayed :
      (k : Text) (a : JobAttempt) (w : World) → (analyze_attempt k a w).1.delayed ≡ w.delayed
  unfolding analyze_attempt
  analyze_attempt-delayed k a w = elim (Option-cases (get w.analyses k)) [
    | inr (r, e) ↦ rw (analyze_attempt, e) refl
    | inl e ↦ elim (Option-cases (get w.jobs a.job_id)) [
      | inl f ↦ rw (analyze_attempt, e) (rw f refl)
      | inr (j, f) ↦ elim (Option-cases (get w.projects j.project_id)) [
        | inl g ↦ rw (analyze_attempt, e) (rw f (rw g refl))
        | inr (p, g) ↦
            rw (analyze_attempt, e) (rw f (rw g (ask_provider-delayed k _ get_provider w)))
      ]
    ]
  ]

  run_analysis-delayed : (k : Text) (w : World) → (run_analysis k w).delayed ≡ w.delayed
  unfolding run_analysis
  run_analysis-delayed k w = elim (Option-cases (get w.attempts k)) [
    | inl e ↦ rw (run_analysis, e)
    | inr (a, e) ↦ rw (run_analysis, e) (analyze_attempt-delayed k a w)
  ]

  pub run_background-delayed :
      (o : Option (Text × List Text)) (w : World) → (run_background o w).delayed ≡ w.delayed
  unfolding run_background
  run_background-delayed none w = refl
  run_background-delayed (some (k, ks)) w = run_analysis-delayed k (record w { background = ks })

  answer_analysis-delayed : (r : Analyzed × World) → (answer_analysis r).1.delayed ≡ r.1.delayed
  answer_analysis-delayed (returned a, w) = refl
  answer_analysis-delayed (raised, w) = refl

  pub trigger_analysis-delayed :
      (k : Text) (w : World) → (trigger_analysis k w).1.delayed ≡ w.delayed
  unfolding trigger_analysis
  trigger_analysis-delayed k w = elim (Option-cases (get w.attempts k)) [
    | inl e ↦ rw (trigger_analysis, e)
    | inr (a, e) ↦ elim (Bool-cases (is_failure a.status)) [
      | inl f ↦
          rw (trigger_analysis, e)
            (rw f (answer_analysis-delayed (analyze_attempt k a w) ∙ analyze_attempt-delayed k a w))
      | inr s ↦ rw (trigger_analysis, e) (rw s refl)
    ]
  ]

  reconcile_row-delayed :
      (k : Text) (j : Job) (active : List Text) (r : ℕ × World)
      → (reconcile_row k j active r).1.delayed ≡ r.1.delayed
  unfolding reconcile_row enqueue
  reconcile_row-delayed k j [] (n, w) = refl
  reconcile_row-delayed k j (i ∷ is) (n, w) = refl

  reconcile_job-delayed : (k : Text) (r : ℕ × World) → (reconcile_job k r).1.delayed ≡ r.1.delayed
  unfolding reconcile_job
  reconcile_job-delayed k (n, w) = elim (Option-cases (get w.jobs k)) [
    | inl e ↦ rw (reconcile_job, e)
    | inr (j, e) ↦ rw (reconcile_job, e) (reconcile_row-delayed k j _ (n, w))
  ]

  reconcile_jobs-delayed :
      (ks : List Text) (r : ℕ × World) → (reconcile_jobs ks r).1.delayed ≡ r.1.delayed
  unfolding reconcile_jobs
  reconcile_jobs-delayed [] r = refl
  reconcile_jobs-delayed (k ∷ ks) r =
      reconcile_jobs-delayed ks (reconcile_job k r) ∙ reconcile_job-delayed k r

  pub reconcile_orphaned_jobs-delayed :
      (w : World) → (reconcile_orphaned_jobs w).1.delayed ≡ w.delayed
  unfolding reconcile_orphaned_jobs
  reconcile_orphaned_jobs-delayed w =
      reconcile_jobs-delayed (select (λ j. is_queued j.status) w.jobs) (0, w)

  cut_leases-delayed : (ks : List Text) (w : World) → (cut_leases ks w).delayed ≡ w.delayed
  unfolding cut_leases cut_lease
  cut_leases-delayed [] w = refl
  cut_leases-delayed (k ∷ ks) w = cut_leases-delayed ks (cut_lease k w) ∙ cut_lease-delayed k w
    where
      cut_lease-delayed : (k : Text) (w : World) → (cut_lease k w).delayed ≡ w.delayed
      cut_lease-delayed k w = elim (Option-cases (get w.attempts k)) [
        | inl e ↦ rw (cut_lease, e)
        | inr (a, e) ↦ rw (cut_lease, e) refl
      ]

  bury_workers-delayed : (ks : List Text) (w : World) → (bury_workers ks w).delayed ≡ w.delayed
  unfolding bury_workers bury_worker
  bury_workers-delayed [] w = refl
  bury_workers-delayed (k ∷ ks) w =
      bury_workers-delayed ks (bury_worker k w) ∙ bury_worker-delayed k w
    where
      bury_worker-delayed : (k : Text) (w : World) → (bury_worker k w).delayed ≡ w.delayed
      bury_worker-delayed k w = elim (Option-cases (get w.workers k)) [
        | inl e ↦ rw (bury_worker, e)
        | inr (r, e) ↦ rw (bury_worker, e) (cut_leases-delayed (select (is_held k) w.attempts) _)
      ]

  pub reap_dead_workers-delayed : (w : World) → (reap_dead_workers w).1.delayed ≡ w.delayed
  unfolding reap_dead_workers
  reap_dead_workers-delayed w =
      bury_workers-delayed
        (select (is_stale (rt.host.clock w.readings - config.worker_dead_after_seconds * second))
          w.workers)
        (record w { readings = suc w.readings })
