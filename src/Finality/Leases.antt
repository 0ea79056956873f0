-- ===== src/Finality/Leases.antt =====
-- Closed jobs under the claims and reports of backend/app/scheduler/lease_manager.py.
use ci_system.Prelude.{
  suc, ◌≡◌, inl, inr, true, Text, text_eq_iff, Option, some, arith, Option-cases, Bool-cases,
}
use ci_system.Prelude.Int.{ℤ}
use ci_system.Models.{Project, Job, JobAttempt, Worker, is_active, is_queued, is_online}
use ci_system.Runtime.{Runtime, get, get-put, parse_pipeline}
use ci_system.World.{World}
use ci_system.RedisClient.{dequeue_one, enqueue}
use ci_system.Lease.{
  Report, claim_next_job, claim_popped, claim_found, find_attempt, lease_attempt, complete_attempt,
  complete_valid, finish_attempt, is_zero,
}
use ci_system.JobManager.{insert_job, new_job, create_and_enqueue_job}
use ci_system.Consistency.{Consistent, Consistent-later, is_open}
use ci_system.Finality.Defs.{KeepsClosed, put-keeps, open_of_active, maybe_retry-keeps}
use ci_system.Reporting.Acceptance.{report_cases, complete-of-HoldsLease}

module _ ⦃rt : Runtime⦄ where
  claim_found-keeps :
      (worker_id job_id : Text) (y : Job) (r : Text × World)
      → get r.1.jobs job_id ≡ some y
      → is_open y.status ≡ true
      → KeepsClosed r.1 (claim_found worker_id job_id y r).1
  unfolding claim_found lease_attempt
  claim_found-keeps worker_id job_id y (h, w) ey op k j ej closed =
      elim (Option-cases (get w.attempts h)) [
        | inl e ↦ rw (claim_found, e) ej
        | inr (a, e) ↦ rw (claim_found, e) (put-keeps w.jobs job_id y _ ey op k j ej closed)
      ]

  find_attempt-jobs : (job_id : Text) (w : World) → (find_attempt job_id w).1.jobs ≡ w.jobs
  unfolding find_attempt
  find_attempt-jobs job_id w = ground arith

  claim_popped-keeps :
      (worker_id job_id : Text) (w : World)
      → KeepsClosed w (claim_popped worker_id (some job_id, w)).1
  unfolding claim_popped
  claim_popped-keeps worker_id job_id w k j ej closed = elim (Option-cases (get w.jobs job_id)) [
    | inl e ↦ rw (claim_popped, e) ej
    | inr (y, e) ↦ elim (Bool-cases (is_queued y.status)) [
      | inr other ↦ rw (claim_popped, e) (rw other ej)
      | inl q ↦
          let same = find_attempt-jobs job_id w in
          rw (claim_popped, e)
            (rw q (
              claim_found-keeps worker_id job_id y (find_attempt job_id w) (rw same e)
                (ground arith) k j (rw same ej) closed))
    ]
  ]

  pub claim_next_job-keeps :
      (worker_id : Text) (r : Worker) (w : World) → KeepsClosed w (claim_next_job worker_id r w).1
  unfolding claim_next_job dequeue_one
  claim_next_job-keeps worker_id r w k j ej closed = elim (Bool-cases (is_online r.status)) [
    | inr off ↦ rw (claim_next_job, off) ej
    | inl on ↦ elim (Option-cases (rt.sorted_set.zpopmin w.queue)) [
      | inl e ↦ rw (claim_next_job, on) (rw (dequeue_one, e) ej)
      | inr (p, e) ↦
          rw (claim_next_job, on)
            (rw (dequeue_one, e)
              (claim_popped-keeps worker_id p.0 (record w { queue = p.1 }) k j ej closed))
    ]
  ]

  finish_attempt-keeps :
      (k : Text) (a : JobAttempt) (y : Job) (r : Report) (w : World)
      → Consistent w
      → get w.attempts k ≡ some a
      → get w.jobs a.job_id ≡ some y
      → is_active a.status ≡ true
      → KeepsClosed w (finish_attempt k a y r w).1
  unfolding finish_attempt
  finish_attempt-keeps k a y r w c ea ey act i j ej closed =
      let op = open_of_active k a y w c ea ey act in
      elim (Bool-cases (is_zero r.exit_code)) [
        | inl z ↦ rw (finish_attempt, z) (put-keeps w.jobs a.job_id y _ ey op i j ej closed)
        | inr nz ↦ elim (Bool-cases r.is_permanent_failure) [
          | inl p ↦ rw (finish_attempt, nz, p) (put-keeps w.jobs a.job_id y _ ey op i j ej closed)
          | inr np ↦
              rw (finish_attempt, nz, np) (maybe_retry-keeps k a _ y _ w c ea ey act i j ej closed)
        ]
      ]

  pub complete_attempt-keeps :
      (k t : Text) (r : Report) (w : World)
      → Consistent w
      → KeepsClosed w (complete_attempt k t r w).1
  unfolding complete_valid
  complete_attempt-keeps k t r w c i j ej closed = elim (report_cases k t r w) [
    | inl (inl same) ↦ rw same ej
    | inl (inr later) ↦ rw later ej
    | inr (a, e, h) ↦ elim (Option-cases (get w.jobs a.job_id)) [
      | inl missing ↦ absurd (c.linked k a h.stored missing)
      | inr (y, ey) ↦ rw (complete-of-HoldsLease k t r w a e h) (
          rw (complete_valid, ey)
            (finish_attempt-keeps k a y r (record w { readings = suc w.readings })
              (Consistent-later (suc w.readings) (omega arith) c) h.stored ey h.active i j ej
              closed))
    ]
  ]

  -- A new job stands under a fresh identifier.
  pub create_and_enqueue_job-keeps :
      (project_id : Text) (p : Project) (sha : Text) (branch : Option Text) (trigger : Text)
      (priority : ℤ) (w : World)
      → Consistent w
      → KeepsClosed w (create_and_enqueue_job project_id p sha branch trigger priority w).1
  unfolding create_and_enqueue_job insert_job enqueue
  create_and_enqueue_job-keeps project_id p sha branch trigger priority w c k j ej closed =
      elim (Option-cases (parse_pipeline p.pipeline_yaml)) [
        | inl e ↦ rw (create_and_enqueue_job, e) ej
        | inr (pipeline, e) ↦
            rw (create_and_enqueue_job, e)
              (ground (
                arith,
                get-put w.jobs (rt.host.uuid w.readings) k
                    (new_job project_id p sha branch trigger priority),
                text_eq_iff (rt.host.uuid w.readings) k,
                c.fresh_job w.readings,
              ))
      ]
