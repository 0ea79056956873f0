-- ===== src/Queueing/Claims.antt =====
-- What a claim of backend/app/scheduler/lease_manager.py hands to a worker.
use ci_system.Prelude.{
  true, ◌≢◌, ℕ, suc, ◌+◌, ◌*◌, ◌≤◌, ◌≡◌, refl, ap, inl, inr, Text, text_eq, text_eq_iff, Option,
  none, some, arith, Option-cases, Bool-cases,
}
use ci_system.Config.{second}
use ci_system.Models.{Job, JobAttempt, JobStatus, AttemptStatus, Worker, is_queued, is_online}
use ci_system.Runtime.{Runtime, config, get, latest}
use ci_system.World.{World}
use ci_system.RedisClient.{dequeue_one}
use ci_system.Lease.{
  claim_next_job, claim_popped, claim_found, find_attempt, create_first_attempt, lease_attempt,
}
use ci_system.Reporting.Outcome.{put_self, job_status_of}

module _ ⦃rt : Runtime⦄ where
  -- The attempt is leased to the worker under the token of the `n`-th reading.
  pub record IsLeased (worker_id attempt_id : Text) (a : JobAttempt) (n : ℕ) (w : World)
      : Type 0 where
    pub stored : get w.attempts attempt_id ≡ some a
    pub holder : a.worker_id ≡ some worker_id
    pub token : a.lease_token ≡ some (rt.host.token n)
    pub expiry :
        a.lease_expires_at ≡ some (rt.host.clock (suc n) + config.job_lease_seconds * second)
    pub leased : a.status ≡ AttemptStatus.leased
    pub job_runs : job_status_of (get w.jobs a.job_id) ≡ some JobStatus.running

  -- A claim gives a lease, or leaves the jobs and attempts alone.
  abbrev pub GrantsLease : World → Text → Option Text × World → Type 0
  GrantsLease w worker_id (none, w') = (w'.jobs ≡ w.jobs) × (w'.attempts ≡ w.attempts)
  GrantsLease w worker_id (some k, w') =
      (a : JobAttempt) × (n : ℕ) × (w.readings ≤ n) × IsLeased worker_id k a n w'

  find_attempt-stored :
      (job_id : Text) (w : World)
      → let (k, w') = find_attempt job_id w in
        (a : JobAttempt) × (get w'.attempts k ≡ some a)
        × (a.job_id ≡ job_id)
        × (w.readings ≤ w'.readings)
  unfolding find_attempt create_first_attempt
  find_attempt-stored job_id w =
      elim (Option-cases
        (latest (λ a. text_eq a.job_id job_id) (λ a. a.attempt_number) w.attempts)) [
          | inl e ↦ rw (find_attempt, e) (_, put_self w.attempts _ _, refl, omega arith)
          | inr (k, e) ↦
              let (a, ea, own, newest) =
                rt.database.latest_some (λ a. text_eq a.job_id job_id) (λ a. a.attempt_number)
                  w.attempts k e in
              rw (find_attempt, e) (a, ea, ground (arith, text_eq_iff a.job_id job_id), omega arith)
        ]

  claim_found-GrantsLease :
      (worker_id job_id : Text) (j : Job) (v : World) (r : Text × World) (a : JobAttempt)
      → get r.1.attempts r.0 ≡ some a
      → a.job_id ≡ job_id
      → v.readings ≤ r.1.readings
      → GrantsLease v worker_id (claim_found worker_id job_id j r)
  unfolding claim_found lease_attempt
  claim_found-GrantsLease worker_id job_id j v (k, w) a ea own later =
      rw (claim_found, ea)
        (
          _,
          w.readings,
          later,
          record {
            stored = put_self w.attempts k _;
            holder = refl;
            token = refl;
            expiry = refl;
            leased = refl;
            job_runs = rw own (ap job_status_of (put_self w.jobs job_id _));
          },
        )

  claim_popped-GrantsLease :
      (worker_id job_id : Text) (w : World)
      → GrantsLease w worker_id (claim_popped worker_id (some job_id, w))
  unfolding claim_popped
  claim_popped-GrantsLease worker_id job_id w = elim (Option-cases (get w.jobs job_id)) [
    | inl e ↦ rw (claim_popped, e) (refl, refl)
    | inr (j, e) ↦ elim (Bool-cases (is_queued j.status)) [
      | inr other ↦ rw (claim_popped, e) (rw other (refl, refl))
      | inl q ↦
          let (a, ea, own, later) = find_attempt-stored job_id w in
          rw (claim_popped, e)
            (rw q
              (claim_found-GrantsLease worker_id job_id j w (find_attempt job_id w) a ea own later))
    ]
  ]

  -- A claim leaves the jobs and the attempts alone and answers with nothing, or answers with an
  -- attempt that is then leased to this worker, under the token of a reading that was not made
  -- before the claim and until the length of a lease after the next reading, and whose job runs.
  pub claim-GrantsLease :
      (worker_id : Text) (r : Worker) (w : World)
      → GrantsLease w worker_id (claim_next_job worker_id r w)
  unfolding claim_next_job dequeue_one
  claim-GrantsLease worker_id r w = elim (Bool-cases (is_online r.status)) [
    | inr off ↦ rw (claim_next_job, off) (refl, refl)
    | inl on ↦ elim (Option-cases (rt.sorted_set.zpopmin w.queue)) [
      | inl e ↦ rw (claim_next_job, on) (rw (dequeue_one, e) (refl, refl))
      | inr (p, e) ↦
          rw (claim_next_job, on)
            (rw (dequeue_one, e)
              (claim_popped-GrantsLease worker_id p.0 (record w { queue = p.1 })))
    ]
  ]

  -- An online worker is handed an attempt whenever the entry that the queue gives up is that of a
  -- queued job.
  pub queued_job_claimed :
      (worker_id job_id : Text) (r : Worker) (j : Job) (rest : rt.sorted_set.Zset) (w : World)
      → is_online r.status ≡ true
      → rt.sorted_set.zpopmin w.queue ≡ some (job_id, rest)
      → get w.jobs job_id ≡ some j
      → is_queued j.status ≡ true
      → (claim_next_job worker_id r w).0 ≢ none
  unfolding claim_next_job dequeue_one claim_popped claim_found
  queued_job_claimed worker_id job_id r j rest w on popped e q =
      let (a, ea, own, later) = find_attempt-stored job_id (record w { queue = rest }) in
      rw (claim_next_job, on)
        (rw (dequeue_one, popped) (rw (claim_popped, e) (rw q (rw (claim_found, ea) (λ h. cc)))))
