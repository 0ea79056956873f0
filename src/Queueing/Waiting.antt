-- ===== src/Queueing/Waiting.antt =====
-- The jobs that wait for their next attempt while the sweep of expired leases goes on.
use Prim.Native.Nat.{min}
use ci_system.Prelude.{
  ℕ, suc, ◌+◌, ◌≤◌, ◌<◌, ◌≡◌, ◌≢◌, refl, sym, ◌∙◌, inl, inr, false, Text, text_eq, text_eq_iff,
  text_eq_refl, some, arith, Bool-cases, Option-cases, leb,
}
use ci_system.Prelude.Int.{ℤ, pos}
use ci_system.Models.{Job, JobAttempt, JobStatus}
use ci_system.Runtime.{Runtime, Table, config, get, put, get-put}
use ci_system.World.{World, save_attempt}
use ci_system.DelayedEntry.{delayed_entry}
use ci_system.Lease.{backoff_seconds, maybe_retry, schedule_delayed_requeue}
use ci_system.Reaper.{expire_row, expire_attempt, mark_errored}
use ci_system.Reporting.Outcome.{put_self}
use ci_system.Queueing.Promotion.{same_job}

module _ ⦃rt : Runtime⦄ where
  -- The job is queued, and an entry of it waits for its time.
  pub record Waiting (w : World) (job_id : Text) (priority : ℤ) : Type 0 where
    pub ready_at : ℕ
    pub entry : rt.sorted_set.score w.delayed (delayed_entry job_id priority) ≡ some (pos ready_at)
    pub read : ℕ
    pub known : read < w.readings
    pub soon : ready_at ≤ rt.host.clock read + config.retry_backoff_max_seconds
    pub job : Job
    pub stored : get w.jobs job_id ≡ some job
    pub queued : job.status ≡ JobStatus.queued

  -- The row and the entry of a job are those of an earlier world.
  abbrev pub Untouched : World → World → Text → ℤ → Type 0
  Untouched v w i q =
      (get v.jobs i ≡ get w.jobs i)
      × (rt.sorted_set.score v.delayed (delayed_entry i q)
          ≡ rt.sorted_set.score w.delayed (delayed_entry i q))
      × (w.readings ≤ v.readings)

  job_other : (jobs : Table Job) (k i : Text) (j : Job) → k ≢ i → get (put jobs k j) i ≡ get jobs i
  job_other jobs k i j other = ground (arith, get-put jobs k i j, text_eq_iff k i)

  other_entry :
      (j i : Text) (p q : ℤ) → j ≢ i → text_eq (delayed_entry j p) (delayed_entry i q) ≡ false
  other_entry j i p q other = elim (Bool-cases (text_eq (delayed_entry j p) (delayed_entry i q))) [
    | inr different ↦ different
    | inl same ↦
        let equal : delayed_entry j p ≡ delayed_entry i q =
          ground (arith, text_eq_iff (delayed_entry j p) (delayed_entry i q)) in
        absurd (other (sym (same_job j i p q equal)))
  ]

  retry-Untouched :
      (h i : Text) (q : ℤ) (b b' : JobAttempt) (j : Job) (w : World)
      → b.job_id ≢ i
      → Untouched
          (mark_errored b.job_id j (
            maybe_retry b.job_id j b.attempt_number
              (save_attempt h b' (record w { readings = suc w.readings }))))
          w
          i
          q
  unfolding mark_errored maybe_retry schedule_delayed_requeue
  retry-Untouched h i q b b' j w other =
      let r : Job = record j { status = JobStatus.errored } in
      elim (Bool-cases (leb config.max_job_attempts b.attempt_number)) [
        | inl spent ↦
            rw (maybe_retry, spent)
              (
                job_other (put w.jobs b.job_id r) b.job_id i r other
                    ∙ job_other w.jobs b.job_id i r other,
                refl,
                omega arith,
              )
        | inr left ↦
            rw (maybe_retry, left)
              (
                job_other w.jobs b.job_id i _ other,
                rt.sorted_set.score_zadd w.delayed (delayed_entry b.job_id j.priority)
                      (delayed_entry i q) _
                    ∙ rw (other_entry b.job_id i j.priority q other) refl,
                omega arith,
              )
      ]

  pub expire_attempt-Untouched :
      (h i : Text) (q : ℤ) (b : JobAttempt) (w : World)
      → get w.attempts h ≡ some b
      → b.job_id ≢ i
      → Untouched (expire_attempt h w) w i q
  unfolding expire_attempt
  expire_attempt-Untouched h i q b w eb other = elim (Option-cases (get w.jobs b.job_id)) [
    | inl missing ↦ rw (expire_attempt, eb) (rw (expire_row, missing) (refl, refl, omega arith))
    | inr (j, ej) ↦
        rw (expire_attempt, eb) (rw (expire_row, ej) (retry-Untouched h i q b _ j w other))
  ]

  pub Untouched-Waiting :
      (v w : World) (i : Text) (q : ℤ) → Untouched v w i q → Waiting w i q → Waiting v i q
  Untouched-Waiting v w i q (jobs, entries, later) h = record {
    ready_at = h.ready_at;
    entry = entries ∙ h.entry;
    read = h.read;
    known = omega (arith, h.known, later);
    soon = h.soon;
    job = h.job;
    stored = jobs ∙ h.stored;
    queued = h.queued;
  }

  backoff_le : (n : ℕ) → backoff_seconds n ≤ config.retry_backoff_max_seconds
  unfolding backoff_seconds
  backoff_le n = below _ config.retry_backoff_max_seconds
    where
      below : (x m : ℕ) → min x m ≤ m
      below x m = ground arith

  pub expire_attempt-Waiting :
      (k : Text) (a : JobAttempt) (j : Job) (w : World)
      → get w.attempts k ≡ some a
      → get w.jobs a.job_id ≡ some j
      → leb config.max_job_attempts a.attempt_number ≡ false
      → Waiting (expire_attempt k w) a.job_id j.priority
  unfolding expire_attempt expire_row mark_errored maybe_retry schedule_delayed_requeue
  expire_attempt-Waiting k a j w ea ej left =
      let entry = delayed_entry a.job_id j.priority in
      rw (expire_attempt, ea)
        (rw (expire_row, ej)
          (rw (maybe_retry, left)
            (record {
              ready_at = rt.host.clock (suc (suc w.readings)) + backoff_seconds a.attempt_number;
              entry =
                  rt.sorted_set.score_zadd w.delayed entry entry _ ∙ rw (text_eq_refl entry) refl;
              read = suc (suc w.readings);
              known = omega arith;
              soon = omega (arith, backoff_le a.attempt_number);
              job = _;
              stored = put_self w.jobs a.job_id _;
              queued = refl;
            })))
