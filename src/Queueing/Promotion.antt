-- ===== src/Queueing/Promotion.antt =====
-- Which entries of the delayed set a promotion moves to the queue.
use ci_system.Prelude.{
  ℕ, suc, ◌+◌, ◌≤◌, ◌≡◌, ◌≢◌, refl, sym, ◌∙◌, ap, inl, inr, Text, text_eq, text_eq_iff,
  text_eq_refl, none, some, List, [], ◌∷◌, arith, Bool-cases,
}
use ci_system.Prelude.Lists.{Occurs, All, All-Occurs, length}
use ci_system.Prelude.Int.{ℤ, pos}
use ci_system.Runtime.{Runtime, Zset}
use ci_system.World.{World}
use ci_system.RedisClient.{queue_score, enqueue}
use ci_system.DelayedEntry.{delayed_entry, rpartition, read_int}
use ci_system.Reaper.{promote_entry, promote_all, promote_delayed_jobs}
use ci_system.Queueing.Entries.{delayed_entry_roundtrip}

module _ ⦃rt : Runtime⦄ where
  abbrev pub IsMember : Zset → Text → Type 0
  IsMember z k = rt.sorted_set.score z k ≢ none

  -- A member that `_schedule_delayed_requeue` writes.
  abbrev pub IsEntry : Text → Type 0
  IsEntry k = (job_id : Text) × (priority : ℤ) × (k ≡ delayed_entry job_id priority)

  zadd-IsMember :
      (z : Zset) (k j : Text) (v : ℤ) → IsMember z j → IsMember (rt.sorted_set.zadd z k v) j
  zadd-IsMember z k j v h = elim (Bool-cases (text_eq k j)) [
    | inl same ↦ rw (rt.sorted_set.score_zadd z k j v) (rw same (λ e. cc))
    | inr other ↦ rw (rt.sorted_set.score_zadd z k j v) (rw other h)
  ]

  zadd_self : (z : Zset) (k : Text) (v : ℤ) → IsMember (rt.sorted_set.zadd z k v) k
  zadd_self z k v = rw (rt.sorted_set.score_zadd z k k v) (rw (text_eq_refl k) (λ e. cc))

  pub zadd-IsEntry :
      (z : Zset) (i : Text) (q v : ℤ)
      → ((k : Text) → IsMember z k → IsEntry k)
      → (k : Text) → IsMember (rt.sorted_set.zadd z (delayed_entry i q) v) k
      → IsEntry k
  zadd-IsEntry z i q v entries k h = elim (Bool-cases (text_eq (delayed_entry i q) k)) [
    | inl same ↦ (i, q, ground (arith, text_eq_iff (delayed_entry i q) k))
    | inr other ↦
        let old : IsMember z k =
          rw other at (rw (rt.sorted_set.score_zadd z (delayed_entry i q) k v) at h) in
        entries k old
  ]

  -- The world after the promotion of the entry of a job.
  abbrev promoted : Text → ℤ → World → World
  promoted job_id priority w = record w {
    readings = suc w.readings;
    queue = rt.sorted_set.zadd w.queue job_id (queue_score priority (rt.host.clock w.readings));
    delayed = rt.sorted_set.zrem w.delayed (delayed_entry job_id priority);
  }

  promote_entry-entry :
      (job_id : Text) (priority : ℤ) (w : World)
      → let (id, text) = rpartition (delayed_entry job_id priority) in
        promote_entry (delayed_entry job_id priority) (id, read_int text) w
        ≡ some (promoted job_id priority w)
  unfolding promote_entry enqueue
  promote_entry-entry job_id priority w =
      let (same, number) = delayed_entry_roundtrip job_id priority in rw same (rw number refl)

  promote_all-entry :
      (job_id : Text) (priority : ℤ) (ready : List Text) (n : ℕ) (w : World)
      → promote_all (delayed_entry job_id priority ∷ ready) n w
        ≡ promote_all ready (suc n) (promoted job_id priority w)
  unfolding promote_all
  promote_all-entry job_id priority ready n w =
      rw (promote_all, promote_entry-entry job_id priority w) refl

  -- A promotion of entries does not fail, keeps the rows, keeps what waits in the queue, and what
  -- it takes out of the delayed set stays out.
  pub record Promotes (ready : List Text) (n : ℕ) (w : World) : Type 0 where
    pub counted : (promote_all ready n w).0 ≡ some (length ready + n)
    pub jobs_kept : (promote_all ready n w).1.jobs ≡ w.jobs
    pub attempts_kept : (promote_all ready n w).1.attempts ≡ w.attempts
    pub queue_kept : (j : Text) → IsMember w.queue j → IsMember (promote_all ready n w).1.queue j
    pub stays_out :
        (k : Text)
        → rt.sorted_set.score w.delayed k ≡ none
        → rt.sorted_set.score (promote_all ready n w).1.delayed k ≡ none
    pub enters :
        (job_id : Text) (priority : ℤ)
        → Occurs (delayed_entry job_id priority) ready
        → IsMember (promote_all ready n w).1.queue job_id
    pub leaves :
        (k : Text) → Occurs k ready → rt.sorted_set.score (promote_all ready n w).1.delayed k ≡ none

  pub same_job : (j i : Text) (p q : ℤ) → delayed_entry j p ≡ delayed_entry i q → i ≡ j
  same_job j i p q e =
      sym (delayed_entry_roundtrip i q).0
      ∙ ap (λ k. (rpartition k).0) (sym e)
      ∙ (delayed_entry_roundtrip j p).0

  gone : (z : Zset) (k : Text) → rt.sorted_set.score (rt.sorted_set.zrem z k) k ≡ none
  gone z k = rw (rt.sorted_set.score_zrem z k k) (rw (text_eq_refl k) refl)

  gone_still :
      (z : Zset) (k j : Text)
      → rt.sorted_set.score z j ≡ none
      → rt.sorted_set.score (rt.sorted_set.zrem z k) j ≡ none
  gone_still z k j h = rw (rt.sorted_set.score_zrem z k j) (ground arith)

  -- One more entry in front.
  entry-Promotes :
      (i : Text) (q : ℤ) (ready : List Text) (n : ℕ) (w : World)
      → Promotes ready (suc n) (promoted i q w)
      → Promotes (delayed_entry i q ∷ ready) n w
  entry-Promotes i q ready n w later =
      let goes = promote_all-entry i q ready n w in
      let score = queue_score q (rt.host.clock w.readings) in
      let left = later.stays_out (delayed_entry i q) (gone w.delayed (delayed_entry i q)) in
      let there = later.queue_kept i (zadd_self w.queue i score) in
      record {
        counted = rw goes (later.counted ∙ ap some (omega arith));
        jobs_kept = rw goes later.jobs_kept;
        attempts_kept = rw goes later.attempts_kept;
        queue_kept = λ j h. rw goes (later.queue_kept j (zadd-IsMember w.queue i j score h));
        stays_out =
            λ k h. rw goes (later.stays_out k (gone_still w.delayed (delayed_entry i q) k h));
        enters = λ j p o. elim o [
          | inl e ↦ rw goes (rw (sym (same_job j i p q e)) there)
          | inr o' ↦ rw goes (later.enters j p o')
        ];
        leaves =
            λ k o. elim o [ inl e ↦ rw goes (rw e left) | inr o' ↦ rw goes (later.leaves k o') ];
      }

  promotion-Promotes :
      (ready : List Text) (n : ℕ) (w : World) → All IsEntry ready → Promotes ready n w
  unfolding promote_all
  promotion-Promotes [] n w entries = record {
    counted = ap some (omega arith);
    jobs_kept = refl;
    attempts_kept = refl;
    queue_kept = λ j h. h;
    stays_out = λ k h. h;
    enters = λ j p o. absurd o;
    leaves = λ k o. absurd o;
  }
  promotion-Promotes (e ∷ ready) n w ((i, q, same), entries) =
      let later = promotion-Promotes ready (suc n) (promoted i q w) entries in
      rw same (entry-Promotes i q ready n w later)

  -- The promotion of the entries whose time has come.
  due-Promotes :
      (w : World)
      → ((k : Text) → IsMember w.delayed k → IsEntry k)
      → Promotes
          (rt.sorted_set.zrangebyscore w.delayed (pos 0) (pos (rt.host.clock w.readings)))
          0
          (record w { readings = suc w.readings })
  due-Promotes w entries =
      let cutoff = rt.host.clock w.readings in
      let ready = rt.sorted_set.zrangebyscore w.delayed (pos 0) (pos cutoff) in
      let member : (k : Text) → Occurs k ready → IsEntry k = λ k o.
        let (v, e, low, high) =
          rt.sorted_set.zrangebyscore_sound w.delayed (pos 0) (pos cutoff) k o in
        entries k (λ n. cc) in
      promotion-Promotes ready 0 (record w { readings = suc w.readings })
        (All-Occurs IsEntry ready member)

  pub promotion_completes :
      (w : World)
      → ((k : Text) → IsMember w.delayed k → IsEntry k)
      → (promote_delayed_jobs w).0 ≢ none
  unfolding promote_delayed_jobs
  promotion_completes w entries = let all = due-Promotes w entries in rw all.counted (λ e. cc)

  -- When the delayed set has only entries of retries, a promotion does not fail, changes no job and
  -- no attempt, and moves every entry whose time has come: its job waits in the queue, and the entry
  -- is gone.
  pub due_retries_promoted :
      (job_id : Text) (priority : ℤ) (ready_at : ℕ) (w : World)
      → ((k : Text) → IsMember w.delayed k → IsEntry k)
      → rt.sorted_set.score w.delayed (delayed_entry job_id priority) ≡ some (pos ready_at)
      → ready_at ≤ rt.host.clock w.readings
      → let (count, w') = promote_delayed_jobs w in
        (count ≢ none)
        × (w'.jobs ≡ w.jobs)
        × (w'.attempts ≡ w.attempts)
        × IsMember w'.queue job_id
        × (rt.sorted_set.score w'.delayed (delayed_entry job_id priority) ≡ none)
  unfolding promote_delayed_jobs
  due_retries_promoted job_id priority ready_at w entries waits due =
      let cutoff = rt.host.clock w.readings in
      let all = due-Promotes w entries in
      let here : Occurs (delayed_entry job_id priority)
          (rt.sorted_set.zrangebyscore w.delayed (pos 0) (pos cutoff)) =
        rt.sorted_set.zrangebyscore_complete w.delayed (pos 0) (pos cutoff) _ (pos ready_at) waits
          (omega arith) (omega arith) in
      (
        rw all.counted (λ e. cc),
        all.jobs_kept,
        all.attempts_kept,
        all.enters job_id priority here,
        all.leaves (delayed_entry job_id priority) here,
      )
