-- ===== src/Queueing/Creation.antt =====
-- How a job comes into the queue: at its creation, and when its delay is over; and how long the
-- delay is.
use Prim.Native.Nat.{min}
use native.Mathlib.Numerals.{unary_clauses}
use ci_system.Prelude.{
  ℕ, suc, ◌-◌, ◌*◌, ◌^◌, ◌≤◌, ◌≡◌, ◌≢◌, ◌⊎◌, refl, ap, inl, inr, true, false, Text, codes,
  text_eq_refl, Option, none, some, [], ◌∷◌, arith, Option-cases,
}
use ci_system.Prelude.Int.{ℤ, pos, ◌+ℤ◌, ◌-ℤ◌, ◌*ℤ◌}
use ci_system.Config.{second}
use ci_system.Models.{Project, JobStatus, AttemptStatus}
use ci_system.Runtime.{Runtime, config, get, parse_pipeline}
use ci_system.World.{World}
use ci_system.RedisClient.{queue_score, enqueue}
use ci_system.DelayedEntry.{delayed_entry, rpartition, read_int}
use ci_system.Lease.{backoff_seconds, create_first_attempt}
use ci_system.JobManager.{insert_job, or_branch, create_and_enqueue_job}
use ci_system.Api.Reply.{Reply, ok}
use ci_system.Api.Jobs.{JobCreate, fits_integer, trigger_job}
use ci_system.Reaper.{promote_entry}
use ci_system.Reporting.Outcome.{put_self}
use ci_system.Queueing.Entries.{delayed_entry_roundtrip}

module _ ⦃rt : Runtime⦄ where
  score_self :
      (z : rt.sorted_set.Zset) (k : Text) (v : ℤ)
      → rt.sorted_set.score (rt.sorted_set.zadd z k v) k ≡ some v
  score_self z k v = ground (arith, rt.sorted_set.score_zadd z k k v, text_eq_refl k)

  -- The branch of the request, or the default one where it gives none or an empty one.
  abbrev ChosenBranch : Option Text → Text → Text → Type 0
  ChosenBranch given default_branch branch =
      ((branch ≡ default_branch) × ((given ≡ none) ⊎ (given ≡ some [])))
      ⊎ ((given ≡ some branch) × (branch ≢ []))

  chosen : (given : Option Text) (d : Text) → ChosenBranch given d (or_branch given d)
  chosen none d = inl (refl, inl refl)
  chosen (some []) d = inl (refl, inr refl)
  chosen (some (c ∷ cs)) d = inr (refl, λ e. cc)

  -- The answer to a request for a job of a project, and what it leaves: a queued job with the
  -- request's commit and priority and the pipeline's text, its first attempt, which is leased to no
  -- worker, and an entry in the queue, under the score of its priority and time.
  pub record Triggered (project_id : Text) (p : Project) (payload : JobCreate) (w : World)
      (r : Reply Text × World) : Type 0 where
    pub job_id : Text
    pub attempt_id : Text
    pub branch : Text
    pub answer : r.0 ≡ ok job_id
    pub named : ChosenBranch payload.branch p.default_branch branch
    pub new_ids : (job_id ≡ rt.host.uuid w.readings) × (attempt_id ≡ rt.host.uuid (suc w.readings))
    pub job :
        get r.1.jobs job_id
        ≡ some (record {
          project_id = project_id;
          commit_sha = payload.commit_sha;
          branch = branch;
          trigger = codes "manual";
          status = JobStatus.queued;
          priority = payload.priority;
          pipeline_snapshot = p.pipeline_yaml;
        })
    pub attempt :
        get r.1.attempts attempt_id
        ≡ some (record {
          job_id = job_id;
          attempt_number = 1;
          status = AttemptStatus.leased;
          worker_id = none;
          lease_token = none;
          lease_expires_at = none;
          started_at = none;
          finished_at = none;
          exit_code = none;
          failed_step = none;
          is_permanent_failure = false;
          logs = [];
          next_retry_at = none;
        })
    pub entry :
        rt.sorted_set.score r.1.queue job_id
        ≡ some (
            rt.host.double (
              rt.host.double ((pos 0 -ℤ payload.priority) *ℤ pos (10 ^ 13 * second))
              +ℤ pos (rt.host.clock (suc (suc w.readings)))))

  -- When the pipeline of a project parses and the priority is in the range of the database's
  -- INTEGER, a request for a job of it is answered with the job's id. It leaves a queued job with
  -- the request's commit and priority, the request's branch or, where it gives none or an empty
  -- one, the project's, and the pipeline's text; the first attempt of the job, leased to no worker;
  -- and an entry in the queue, whose score is -10^13 times the priority plus the time in seconds,
  -- rounded to doubles.
  pub created_job_waits :
      (project_id : Text) (p : Project) (payload : JobCreate) (w : World)
      → get w.projects project_id ≡ some p
      → parse_pipeline p.pipeline_yaml ≢ none
      → fits_integer payload.priority ≡ true
      → Triggered project_id p payload w (trigger_job project_id payload w)
  unfolding trigger_job create_and_enqueue_job insert_job create_first_attempt enqueue queue_score
  created_job_waits project_id p payload w found parses fits =
      elim (Option-cases (parse_pipeline p.pipeline_yaml)) [
        | inl e ↦ absurd (parses e)
        | inr (pipeline, e) ↦
            rw (trigger_job, found)
              (rw (fits) (
                rw (create_and_enqueue_job, e)
                  (record {
                    job_id = rt.host.uuid w.readings;
                    attempt_id = rt.host.uuid (suc w.readings);
                    branch = or_branch payload.branch p.default_branch;
                    answer = refl;
                    named = chosen payload.branch p.default_branch;
                    new_ids = (refl, refl);
                    job = put_self w.jobs _ _;
                    attempt = put_self w.attempts _ _;
                    entry = score_self w.queue _ _;
                  })))
      ]

  -- The entry that a retry leaves in the delayed set is promoted without an error: the job enters
  -- the queue under the score of its own priority, and the entry is gone.
  pub delayed_job_promoted :
      (job_id : Text) (priority : ℤ) (w : World)
      → let entry = delayed_entry job_id priority in
        let (id, text) = rpartition entry in
        (w' : World) × (promote_entry entry (id, read_int text) w ≡ some w')
        × (rt.sorted_set.score w'.queue job_id
            ≡ some (queue_score priority (rt.host.clock w.readings)))
        × (rt.sorted_set.score w'.delayed entry ≡ none)
  unfolding promote_entry enqueue
  delayed_job_promoted job_id priority w =
      let entry = delayed_entry job_id priority in
      let (same, number) = delayed_entry_roundtrip job_id priority in
      rw same (
        rw number (
          _,
          refl,
          score_self w.queue job_id _,
          ground (arith, rt.sorted_set.score_zrem w.delayed entry entry, text_eq_refl entry),
        ))

  -- The delay starts at the base, or the cap when that is shorter, doubles with every failed
  -- attempt, and never passes the cap.
  pub backoff_doubles :
      (n : ℕ)
      → (backoff_seconds 1 ≡ min config.retry_backoff_base_seconds config.retry_backoff_max_seconds)
        × (backoff_seconds (suc (suc n))
            ≡ min (2 * backoff_seconds (suc n)) config.retry_backoff_max_seconds)
        × (backoff_seconds (suc n) ≤ config.retry_backoff_max_seconds)
  unfolding backoff_seconds
  backoff_doubles n = (
    ap (λ x. min x config.retry_backoff_max_seconds) (once config.retry_backoff_base_seconds),
    doubled config.retry_backoff_base_seconds config.retry_backoff_max_seconds,
    below _ config.retry_backoff_max_seconds,
  )
    where
      once : (b : ℕ) → b * 2 ^ 0 ≡ b
      once b = omega arith

      below : (x m : ℕ) → min x m ≤ m
      below x m = ground arith

      regroup : (b p : ℕ) → b * (2 * p) ≡ 2 * (b * p)
      regroup b p = omega arith

      capped : (b p m : ℕ) → min (b * (2 * p)) m ≡ min (2 * min (b * p) m) m
      capped b p m = rw (regroup b p) (ground arith)

      power : 2 ^ (suc (suc n) - 1) ≡ 2 * 2 ^ (suc n - 1)
      power = simp unary_clauses (omega arith)

      doubled :
          (b m : ℕ) → min (b * 2 ^ (suc (suc n) - 1)) m ≡ min (2 * min (b * 2 ^ (suc n - 1)) m) m
      doubled b m = rw power (capped b (2 ^ (suc n - 1)) m)
