-- ===== src/Consistency/Leases.antt =====
-- The invariant under claims, renewals and the creation of jobs.
use ci_system.Prelude.{
  suc, ◌+◌, ◌*◌, ◌≡◌, ◌≢◌, refl, inl, inr, true, Text, text_eq, text_eq_iff, Option, none, some,
  arith, Option-cases, Bool-cases,
}
use ci_system.Models.{Project, Job, JobAttempt, JobStatus, Worker, is_active, is_queued, is_online}
use ci_system.Prelude.Int.{ℤ}
use ci_system.Runtime.{Runtime, parse_pipeline, config, get, latest}
use ci_system.World.{World}
use ci_system.Config.{second}
use ci_system.RedisClient.{dequeue_one, enqueue}
use ci_system.Lease.{
  claim_next_job, claim_popped, claim_found, find_attempt, lease_attempt, renew_lease, new_attempt,
  holds_token,
}
use ci_system.JobManager.{insert_job, new_job, create_and_enqueue_job}
use ci_system.Consistency.Defs.{Consistent, is_open}
use ci_system.Consistency.Moves.{settle, touch, create}
use ci_system.Consistency.Later.{Consistent-later}

module _ ⦃rt : Runtime⦄ where
  pub renew_lease-Consistent :
      (k t : Text) (w : World) → Consistent w → Consistent (renew_lease k t w).1
  unfolding renew_lease
  renew_lease-Consistent k t w c = elim (Option-cases (get w.attempts k)) [
    | inl e ↦ rw (e, renew_lease) c
    | inr (a, e) ↦ elim (Bool-cases (holds_token a.lease_token t)) [
      | inr h ↦ rw (e, renew_lease) (rw h c)
      | inl h ↦ elim (Bool-cases (is_active a.status)) [
        | inr idle ↦ rw (e, renew_lease) (rw (h, idle) c)
        | inl act ↦
            rw (e, renew_lease)
              (rw (h, act)
                (touch (suc w.readings) k a
                  (record a {
                    lease_expires_at =
                        some (rt.host.clock w.readings + config.job_lease_seconds * second);
                  })
                  c (omega arith) e refl refl refl (λ j ej act' ag. ground arith)))
      ]
    ]
  ]

  -- In a consistent world the newest attempt of a queued job is the one that waits.
  pub latest-waits :
      (job_id k : Text) (j : Job) (w : World)
      → Consistent w
      → get w.jobs job_id ≡ some j
      → is_open j.status ≡ true
      → latest (λ a. text_eq a.job_id job_id) (λ a. a.attempt_number) w.attempts ≡ some k
      → (a : JobAttempt) × (get w.attempts k ≡ some a)
        × (a.job_id ≡ job_id)
        × (is_active a.status ≡ true)
  latest-waits job_id k j w c ej op el =
      let (a, ea, mine, most) = rt.database.latest_some _ _ w.attempts k el in
      let (i, b, eb, own, act) = c.attended job_id j ej op in
      let same : k ≡ i = c.numbered k i a b ea eb (ground (arith, text_eq_iff a.job_id job_id)) (
        ground (
          arith,
          text_eq_iff a.job_id job_id,
          most i b eb,
          text_eq_iff b.job_id job_id,
          c.newest i k b a eb ea,
        )) in
      (a, ea, ground (arith, text_eq_iff a.job_id job_id), ground (arith, eb, ea))

  lease_attempt-Consistent :
      (worker_id k : Text) (a : JobAttempt) (j : Job) (w : World)
      → Consistent w
      → get w.attempts k ≡ some a
      → get w.jobs a.job_id ≡ some j
      → is_active a.status ≡ true
      → Consistent (lease_attempt worker_id a.job_id j k a w)
  unfolding lease_attempt
  lease_attempt-Consistent worker_id k a j w c ea ej act =
      settle (suc (suc (suc w.readings))) k a _ j _ c (omega arith) ea ej act refl refl (λ h. refl)
        (λ h. refl)

  -- Nor is the first attempt of a queued job ever missing.
  pub latest-ne-none :
      (job_id : Text) (j : Job) (w : World)
      → Consistent w
      → get w.jobs job_id ≡ some j
      → is_open j.status ≡ true
      → latest (λ a. text_eq a.job_id job_id) (λ a. a.attempt_number) w.attempts ≢ none
  latest-ne-none job_id j w c ej op el =
      let (i, b, eb, own, act) = c.attended job_id j ej op in
      ground (
        arith,
        rt.database.latest_none (λ a. text_eq a.job_id job_id) (λ a. a.attempt_number) w.attempts i
            b el eb,
        text_eq_iff b.job_id job_id,
      )

  claim_popped-Consistent :
      (worker_id job_id : Text) (w : World)
      → Consistent w
      → Consistent (claim_popped worker_id (some job_id, w)).1
  unfolding claim_popped
  claim_popped-Consistent worker_id job_id w c = elim (Option-cases (get w.jobs job_id)) [
    | inl e ↦ rw (claim_popped, e) c
    | inr (j, e) ↦ elim (Bool-cases (is_queued j.status)) [
      | inr other ↦ rw (claim_popped, e) (rw other c)
      | inl q ↦
          elim (Option-cases
            (latest (λ a. text_eq a.job_id job_id) (λ a. a.attempt_number) w.attempts)) [
              | inl l ↦ absurd (latest-ne-none job_id j w c e (ground arith) l)
              | inr (k, l) ↦
                  let (a, ea, own, act) = latest-waits job_id k j w c e (ground arith) l in
                  rw (claim_popped, e)
                    (rw q (
                      rw (find_attempt, l)
                        (rw (claim_found, ea)
                          (rw (← own)
                            (lease_attempt-Consistent worker_id k a j w c ea (rw own e) act)))))
            ]
    ]
  ]

  -- A claim keeps the invariant.
  pub claim_next_job-Consistent :
      (worker_id : Text) (r : Worker) (w : World)
      → Consistent w
      → Consistent (claim_next_job worker_id r w).1
  unfolding claim_next_job dequeue_one
  claim_next_job-Consistent worker_id r w c = elim (Bool-cases (is_online r.status)) [
    | inr off ↦ rw (claim_next_job, off) c
    | inl on ↦ elim (Option-cases (rt.sorted_set.zpopmin w.queue)) [
      | inl e ↦ rw (claim_next_job, on) (rw (dequeue_one, e) c)
      | inr (p, e) ↦
          rw (claim_next_job, on)
            (rw (dequeue_one, e)
              (claim_popped-Consistent worker_id p.0 (record w { queue = p.1 }) c))
    ]
  ]

  insert_job-Consistent :
      (j : Job) (w : World)
      → j.status ≡ JobStatus.queued
      → Consistent w
      → Consistent (insert_job j w).1
  unfolding insert_job
  insert_job-Consistent j w q c =
      create (suc (suc w.readings)) w.readings (suc w.readings) (new_attempt _ 1 none) j c
        (omega arith) (omega arith) (omega arith) (omega arith) refl refl (ground arith) refl

  -- The creation of a job keeps the invariant.
  pub create_and_enqueue_job-Consistent :
      (project_id : Text) (p : Project) (sha : Text) (branch : Option Text) (trigger : Text)
      (priority : ℤ) (w : World)
      → Consistent w
      → Consistent (create_and_enqueue_job project_id p sha branch trigger priority w).1
  unfolding create_and_enqueue_job enqueue
  create_and_enqueue_job-Consistent project_id p sha branch trigger priority w c =
      elim (Option-cases (parse_pipeline p.pipeline_yaml)) [
        | inl e ↦ rw (create_and_enqueue_job, e) c
        | inr (pipeline, e) ↦
            rw (create_and_enqueue_job, e)
              (Consistent-later (suc (suc (suc w.readings))) (omega arith)
                (insert_job-Consistent (new_job project_id p sha branch trigger priority) w refl c))
      ]
