-- ===== src/Reporting/Late.antt =====
-- What the sweep of expired leases does to the attempts, and the reports that come after it.
use ci_system.Prelude.{
  ℕ, suc, ap, ◌≡◌, refl, sym, inl, inr, true, false, Text, none, some, List, [], ◌∷◌, arith,
  Option-cases, Bool-cases, leb,
}
use ci_system.Prelude.Lists.{Occurs, Distinct, All, All-Occurs}
use ci_system.Models.{Job, JobAttempt, AttemptStatus, is_active}
use ci_system.Runtime.{Runtime, config, get, select}
use ci_system.World.{World, save_attempt}
use ci_system.Lease.{Report, maybe_retry, complete_attempt, holds_token}
use ci_system.Reaper.{
  expire_row, expire_attempt, expire_all, mark_errored, reap_expired_leases, is_expired,
  or_lease_expired,
}
use ci_system.Consistency.{Consistent, Consistent-later}
use ci_system.Consistency.Expiry.{
  IsActiveAt, still_active, selected, expire_attempt-Consistent, expire_attempt-keeps,
}
use ci_system.Reporting.Outcome.{status_of, put_self, put_other}

module _ ⦃rt : Runtime⦄ where
  -- The attempt is there and its lease was taken away.
  abbrev IsSweptAt : World → Text → Type 0
  IsSweptAt w k =
      (a : JobAttempt) × (get w.attempts k ≡ some a) × (a.status ≡ AttemptStatus.infra_error)

  expire_attempt-IsSweptAt :
      (k : Text) (w : World) → Consistent w → IsActiveAt w k → IsSweptAt (expire_attempt k w) k
  unfolding expire_attempt mark_errored maybe_retry
  expire_attempt-IsSweptAt k w c (a, ea, act) = elim (Option-cases (get w.jobs a.job_id)) [
    | inl missing ↦ absurd (c.linked k a ea missing)
    | inr (j, ej) ↦ rw (expire_attempt, ea) (rw (expire_row, ej) (settled a j act))
  ]
    where
      swept : (a : JobAttempt) (t : ℕ) → JobAttempt
      swept a t = record a {
        status = AttemptStatus.infra_error;
        finished_at = some t;
        failed_step = or_lease_expired a.failed_step;
      }

      settled :
          (a : JobAttempt) (j : Job)
          → is_active a.status ≡ true
          → IsSweptAt
              (mark_errored a.job_id j (
                maybe_retry a.job_id j a.attempt_number (
                  save_attempt k
                    (swept a (rt.host.clock w.readings))
                    (record w { readings = suc w.readings }))))
              k
      settled a j act = elim (Bool-cases (leb config.max_job_attempts a.attempt_number)) [
        | inl spent ↦ rw (maybe_retry, spent) (_, put_self w.attempts k _, refl)
        | inr left ↦
            rw (maybe_retry, left)
              (
                _,
                put_other w.attempts (rt.host.uuid (suc w.readings)) k _ _
                    (λ e. ground (arith, c.fresh_attempt (suc w.readings))),
                refl,
              )
      ]

  expire_all-keeps :
      (ks : List Text) (k : Text) (b : JobAttempt) (w : World)
      → Distinct ks
      → All (IsActiveAt w) ks
      → ¬ Occurs k ks
      → Consistent w
      → get w.attempts k ≡ some b
      → get (expire_all ks w).attempts k ≡ some b
  unfolding expire_all
  expire_all-keeps [] k b w d h away c e = e
  expire_all-keeps (i ∷ ks) k b w (new, d) (here, h) away c e =
      expire_all-keeps ks k b (expire_attempt i w) d (still_active ks i w c new h)
        (λ o. away (inr o)) (expire_attempt-Consistent i w c here)
        (expire_attempt-keeps i k b w c (λ same. away (inl (sym same))) e)

  expire_all-IsSweptAt :
      (ks : List Text) (k : Text) (w : World)
      → Distinct ks
      → All (IsActiveAt w) ks
      → Occurs k ks
      → Consistent w
      → IsSweptAt (expire_all ks w) k
  unfolding expire_all
  expire_all-IsSweptAt [] k w d h o c = absurd o
  expire_all-IsSweptAt (i ∷ ks) k w (new, d) (here, h) (inr o) c =
      expire_all-IsSweptAt ks k (expire_attempt i w) d (still_active ks i w c new h) o
        (expire_attempt-Consistent i w c here)
  expire_all-IsSweptAt (i ∷ ks) k w (new, d) (here, h) (inl same) c =
      let (a, e, swept) = expire_attempt-IsSweptAt i w c here in
      rw same (
        a,
        expire_all-keeps ks i a (expire_attempt i w) d (still_active ks i w c new h) new
            (expire_attempt-Consistent i w c here) e,
        swept,
      )

  -- In a consistent world, the sweep ends every active attempt whose lease expired before the
  -- clock reading of the sweep as an infrastructure error.
  pub expired_lease_swept :
      (k : Text) (a : JobAttempt) (w : World)
      → Consistent w
      → get w.attempts k ≡ some a
      → is_expired (rt.host.clock w.readings) a ≡ true
      → status_of (get (reap_expired_leases w).1.attempts k) ≡ some AttemptStatus.infra_error
  unfolding reap_expired_leases
  expired_lease_swept k a w c ea late =
      let t = rt.host.clock w.readings in
      let w' : World = record w { readings = suc w.readings } in
      let (b, eb, swept) =
        expire_all-IsSweptAt (select (is_expired t) w.attempts) k w'
          (rt.database.select_distinct (is_expired t) w.attempts)
          (All-Occurs (IsActiveAt w') (select (is_expired t) w.attempts) (λ i o. selected t i w o))
          (rt.database.select_complete (is_expired t) w.attempts k a ea late)
          (Consistent-later (suc w.readings) (omega arith) c) in
      rw eb (ap some swept)

  -- A report of an attempt whose lease was taken away.
  pub ended_report_refused :
      (k t : Text) (r : Report) (w : World)
      → status_of (get w.attempts k) ≡ some AttemptStatus.infra_error
      → complete_attempt k t r w ≡ (none, w)
  unfolding complete_attempt
  ended_report_refused k t r w h = elim (Option-cases (get w.attempts k)) [
    | inl e ↦ rw (complete_attempt, e)
    | inr (b, e) ↦ elim (Bool-cases (holds_token b.lease_token t)) [
      | inr other ↦ rw (complete_attempt, e) (rw other)
      | inl holds ↦ rw (complete_attempt, e) (rw holds (rw (ended b.status (rw e at h))))
    ]
  ]
    where
      ended : (s : AttemptStatus) → some s ≡ some AttemptStatus.infra_error → is_active s ≡ false
      ended s h = ground arith
