-- ===== src/Queueing/Abandoned.antt =====
-- What the sweep of expired leases schedules for the jobs of the attempts that it ends.
use ci_system.Prelude.{
  suc, ◌<◌, ◌≡◌, ◌≢◌, sym, ◌∙◌, inl, inr, true, false, Text, some, List, [], ◌∷◌, arith, leb,
}
use ci_system.Prelude.Int.{ℤ}
use ci_system.Prelude.Lists.{Occurs, Distinct, All, All-Occurs}
use ci_system.Models.{Job, JobAttempt, is_active}
use ci_system.Runtime.{Runtime, config, get, select}
use ci_system.World.{World}
use ci_system.Reaper.{expire_attempt, expire_all, reap_expired_leases, is_expired}
use ci_system.Consistency.{Consistent, Consistent-later}
use ci_system.Consistency.Moves.{active_unique}
use ci_system.Consistency.Expiry.{
  IsActiveAt, still_active, selected, expire_attempt-Consistent, expire_attempt-keeps,
}
use ci_system.Queueing.Waiting.{
  Waiting, expire_attempt-Untouched, Untouched-Waiting, expire_attempt-Waiting,
}

module _ ⦃rt : Runtime⦄ where
  -- The attempt is there and belongs to another job.
  abbrev OfOther : World → Text → Text → Type 0
  OfOther w i h = (b : JobAttempt) × (get w.attempts h ≡ some b) × (b.job_id ≢ i)

  still_other :
      (ks : List Text) (h i : Text) (w : World)
      → Consistent w
      → ¬ Occurs h ks
      → All (OfOther w i) ks
      → All (OfOther (expire_attempt h w) i) ks
  still_other [] h i w c new others = tt
  still_other (k ∷ ks) h i w c new ((b, eb, other), others) = (
    (b, expire_attempt-keeps h k b w c (λ e. new (inl e)) eb, other),
    still_other ks h i w c (λ o. new (inr o)) others,
  )

  expire_all-Waiting :
      (ks : List Text) (i : Text) (q : ℤ) (w : World)
      → Distinct ks
      → All (IsActiveAt w) ks
      → All (OfOther w i) ks
      → Consistent w
      → Waiting w i q
      → Waiting (expire_all ks w) i q
  unfolding expire_all
  expire_all-Waiting [] i q w d act others c h = h
  expire_all-Waiting (k ∷ ks) i q w (new, d) (here, act) ((b, eb, other), others) c h =
      expire_all-Waiting ks i q (expire_attempt k w) d (still_active ks k w c new act)
        (still_other ks k i w c new others) (expire_attempt-Consistent k w c here)
        (Untouched-Waiting (expire_attempt k w) w i q (expire_attempt-Untouched k i q b w eb other)
          h)

  -- The other active attempts belong to other jobs.
  others_apart :
      (ks : List Text) (k : Text) (a : JobAttempt) (w : World)
      → Consistent w
      → get w.attempts k ≡ some a
      → is_active a.status ≡ true
      → ¬ Occurs k ks
      → All (IsActiveAt w) ks
      → All (OfOther w a.job_id) ks
  others_apart [] k a w c ea act new h = tt
  others_apart (i ∷ ks) k a w c ea act new ((b, eb, active), h) = (
    (b, eb, λ same. new (inl (active_unique c k i a b ea eb same act active))),
    others_apart ks k a w c ea act (λ o. new (inr o)) h,
  )

  expire_all-retries :
      (ks : List Text) (k : Text) (a : JobAttempt) (j : Job) (w : World)
      → Distinct ks
      → All (IsActiveAt w) ks
      → Occurs k ks
      → Consistent w
      → get w.attempts k ≡ some a
      → is_active a.status ≡ true
      → get w.jobs a.job_id ≡ some j
      → leb config.max_job_attempts a.attempt_number ≡ false
      → Waiting (expire_all ks w) a.job_id j.priority
  unfolding expire_all
  expire_all-retries [] k a j w d h o c ea act ej left = absurd o
  expire_all-retries (i ∷ ks) k a j w (new, d) (here, h) (inl same) c ea act ej left =
      let away : ¬ Occurs k ks = rw same new in
      let apart = others_apart ks k a w c ea act away h in
      let waits = expire_attempt-Waiting k a j w ea ej left in
      let active : IsActiveAt w k = (a, ea, act) in
      rw (sym same) (
        expire_all-Waiting ks a.job_id j.priority (expire_attempt k w) d
          (still_active ks k w c away h) (still_other ks k a.job_id w c away apart)
          (expire_attempt-Consistent k w c active) waits)
  expire_all-retries (i ∷ ks) k a j w (new, d) ((b, eb, active), h) (inr o) c ea act ej left =
      let differs : i ≢ k = λ e. new (rw e o) in
      let other : b.job_id ≢ a.job_id =
        λ same. differs (sym (active_unique c k i a b ea eb same act active)) in
      let (jobs, entries, after) = expire_attempt-Untouched i a.job_id j.priority b w eb other in
      expire_all-retries ks k a j (expire_attempt i w) d (still_active ks i w c new h) o
        (expire_attempt-Consistent i w c (b, eb, active))
        (expire_attempt-keeps i k a w c differs ea) act (jobs ∙ ej) left

  -- In a consistent world, the sweep queues the job of every active attempt whose lease expired
  -- before its clock reading, so long as the retry budget of the job is not spent, and leaves an
  -- entry for it in the delayed set, which is due at most the longest delay after a reading of the
  -- clock that has been made by the end of the sweep.
  pub abandoned_job_retried :
      (k : Text) (a : JobAttempt) (j : Job) (w : World)
      → Consistent w
      → get w.attempts k ≡ some a
      → get w.jobs a.job_id ≡ some j
      → is_expired (rt.host.clock w.readings) a ≡ true
      → a.attempt_number < config.max_job_attempts
      → Waiting (reap_expired_leases w).1 a.job_id j.priority
  unfolding reap_expired_leases
  abandoned_job_retried k a j w c ea ej late below =
      let t = rt.host.clock w.readings in
      let w' : World = record w { readings = suc w.readings } in
      expire_all-retries (select (is_expired t) w.attempts) k a j w'
        (rt.database.select_distinct (is_expired t) w.attempts)
        (All-Occurs (IsActiveAt w') (select (is_expired t) w.attempts) (λ i o. selected t i w o))
        (rt.database.select_complete (is_expired t) w.attempts k a ea late)
        (Consistent-later (suc w.readings) (omega arith) c) ea (ground arith) ej (ground arith)
