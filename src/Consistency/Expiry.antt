-- ===== src/Consistency/Expiry.antt =====
-- The invariant under `reap_expired_leases` of backend/app/scheduler/lease_manager.py.
use ci_system.Prelude.{
  ℕ, suc, ◌≡◌, ◌≢◌, refl, inl, inr, true, false, Text, text_eq_iff, some, List, [], ◌∷◌, arith,
  Option-cases, Bool-cases, leb,
}
use ci_system.Models.{Job, JobAttempt, JobStatus, is_active}
use ci_system.Runtime.{Runtime, Table, config, get, put, get-put}
use ci_system.World.{World, save_attempt}
use ci_system.Lease.{maybe_retry}
use ci_system.Consistency.Defs.{Consistent}
use ci_system.Prelude.Lists.{Occurs, Distinct, All, All-Occurs}
use ci_system.Consistency.Later.{Consistent-later, Consistent-same}
use ci_system.Consistency.Reports.{maybe_retry-Consistent}
use ci_system.Reaper.{
  expire_row, expire_attempt, expire_all, mark_errored, reap_expired_leases, is_expired,
}
use ci_system.Runtime.{select}

module _ ⦃rt : Runtime⦄ where
  -- The attempt is there and active.
  abbrev pub IsActiveAt : World → Text → Type 0
  IsActiveAt w k = (a : JobAttempt) × (get w.attempts k ≡ some a) × (is_active a.status ≡ true)

  errored_twice :
      (k : Text) (j : Job) (jobs : Table Job) (i : Text)
      → get
          (put
            (put jobs k (record j { status = JobStatus.errored }))
            k
            (record j { status = JobStatus.errored }))
          i
        ≡ get (put jobs k (record j { status = JobStatus.errored })) i
  errored_twice k j jobs i =
      let r : Job = record j { status = JobStatus.errored } in
      ground (arith, get-put (put jobs k r) k i r, get-put jobs k i r)

  mark_errored-Consistent :
      (k : Text) (a a' : JobAttempt) (j : Job) (w : World)
      → Consistent w
      → get w.attempts k ≡ some a
      → get w.jobs a.job_id ≡ some j
      → is_active a.status ≡ true
      → a'.job_id ≡ a.job_id
      → a'.attempt_number ≡ a.attempt_number
      → is_active a'.status ≡ false
      → Consistent (
          mark_errored a.job_id j (
            maybe_retry a.job_id j a.attempt_number
              (save_attempt k a' (record w { readings = suc w.readings }))))
  unfolding mark_errored maybe_retry
  mark_errored-Consistent k a a' j w c ea ej act own number idle =
      elim (Bool-cases (leb config.max_job_attempts a.attempt_number)) [
        | inl spent ↦
            let m : Consistent
                (maybe_retry a.job_id j a.attempt_number
                  (save_attempt k a' (record w { readings = suc w.readings }))).1 =
              maybe_retry-Consistent k a a' j w c ea ej act own number idle in
            rw (maybe_retry, spent)
              (Consistent-same (errored_twice a.job_id j w.jobs) (rw (maybe_retry, spent) at m))
        | inr left ↦
            let m : Consistent
                (maybe_retry a.job_id j a.attempt_number
                  (save_attempt k a' (record w { readings = suc w.readings }))).1 =
              maybe_retry-Consistent k a a' j w c ea ej act own number idle in
            rw (maybe_retry, left) (rw (maybe_retry, left) at m)
      ]

  pub expire_attempt-Consistent :
      (k : Text) (w : World) → Consistent w → IsActiveAt w k → Consistent (expire_attempt k w)
  unfolding expire_attempt
  expire_attempt-Consistent k w c (a, ea, act) = elim (Option-cases (get w.jobs a.job_id)) [
    | inl e ↦ rw (expire_attempt, ea) (rw (expire_row, e) c)
    | inr (j, e) ↦
        rw (expire_attempt, ea)
          (rw (expire_row, e) (mark_errored-Consistent k a _ j w c ea e act refl refl refl))
  ]

  put-put_ne :
      (attempts : Table JobAttempt) (k h i : Text) (a d b : JobAttempt)
      → k ≢ i
      → h ≢ i
      → get attempts i ≡ some b
      → get (put (put attempts k a) h d) i ≡ some b
  put-put_ne attempts k h i a d b p q e = ground (
    arith,
    get-put (put attempts k a) h i d,
    get-put attempts k i a,
    text_eq_iff k i,
    text_eq_iff h i,
  )

  maybe_retry-keeps :
      (k i job_id : Text) (j : Job) (n : ℕ) (b a' : JobAttempt) (w : World)
      → Consistent w
      → k ≢ i
      → get w.attempts i ≡ some b
      → get
          (mark_errored job_id j (
            maybe_retry job_id j n
              (save_attempt k a' (record w { readings = suc w.readings })))).attempts
          i
        ≡ some b
  unfolding mark_errored maybe_retry
  maybe_retry-keeps k i job_id j n b a' w c other eb =
      elim (Bool-cases (leb config.max_job_attempts n)) [
        | inl spent ↦
            rw (maybe_retry, spent) (ground (arith, get-put w.attempts k i a', text_eq_iff k i))
        | inr left ↦
            rw (maybe_retry, left)
              (put-put_ne w.attempts k (rt.host.uuid (suc w.readings)) i a' _ b other
                (λ e. ground (arith, c.fresh_attempt (suc w.readings))) eb)
      ]

  -- The other attempts that are there stay as they are.
  pub expire_attempt-keeps :
      (k i : Text) (b : JobAttempt) (w : World)
      → Consistent w
      → k ≢ i
      → get w.attempts i ≡ some b
      → get (expire_attempt k w).attempts i ≡ some b
  unfolding expire_attempt
  expire_attempt-keeps k i b w c other eb = elim (Option-cases (get w.attempts k)) [
    | inl e ↦ rw (expire_attempt, e) eb
    | inr (a, e) ↦ elim (Option-cases (get w.jobs a.job_id)) [
      | inl f ↦ rw (expire_attempt, e) (rw (expire_row, f) eb)
      | inr (j, f) ↦
          rw (expire_attempt, e)
            (rw (expire_row, f)
              (maybe_retry-keeps k i a.job_id j a.attempt_number b _ w c other eb))
    ]
  ]

  -- The rounds of the other attempts leave an active attempt active.
  pub still_active :
      (ks : List Text) (k : Text) (w : World)
      → Consistent w
      → ¬ Occurs k ks
      → All (IsActiveAt w) ks
      → All (IsActiveAt (expire_attempt k w)) ks
  still_active [] k w c new h = tt
  still_active (i ∷ ks) k w c new ((a, ea, act), h) = (
    (a, expire_attempt-keeps k i a w c (λ e. new (inl e)) ea, act),
    still_active ks k w c (λ o. new (inr o)) h,
  )

  pub selected :
      (t : ℕ) (k : Text) (w : World) → Occurs k (select (is_expired t) w.attempts) → IsActiveAt w k
  selected t k w o =
      let (a, ea, hit) = rt.database.select_sound (is_expired t) w.attempts k o in
      (a, ea, ground arith)

  expire_all-Consistent :
      (ks : List Text) (w : World)
      → Distinct ks
      → All (IsActiveAt w) ks
      → Consistent w
      → Consistent (expire_all ks w)
  unfolding expire_all
  expire_all-Consistent [] w d h c = c
  expire_all-Consistent (k ∷ ks) w (new, d) (here, h) c =
      expire_all-Consistent ks (expire_attempt k w) d (still_active ks k w c new h)
        (expire_attempt-Consistent k w c here)

  -- Expired leases are reaped, and the invariant holds.
  pub reap_expired_leases-Consistent :
      (w : World) → Consistent w → Consistent (reap_expired_leases w).1
  unfolding reap_expired_leases
  reap_expired_leases-Consistent w c =
      let t = rt.host.clock w.readings in
      let w' : World = record w { readings = suc w.readings } in
      expire_all-Consistent (select (is_expired t) w.attempts) w'
        (rt.database.select_distinct (is_expired t) w.attempts)
        (All-Occurs (IsActiveAt w') (select (is_expired t) w.attempts) (λ k o. selected t k w o))
        (Consistent-later (suc w.readings) (omega arith) c)
