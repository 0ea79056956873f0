-- ===== src/Consistency/Reports.antt =====
-- The invariant under reports and retries.
use ci_system.Prelude.{
  ℕ, suc, ◌≡◌, refl, inl, inr, true, false, Text, Option, none, some, arith, Option-cases,
  Bool-cases, leb, ltb,
}
use ci_system.Models.{Job, JobAttempt, is_active}
use ci_system.Runtime.{Runtime, config, get}
use ci_system.World.{World, save_attempt}
use ci_system.Lease.{
  complete_attempt, complete_leased, complete_valid, finish_attempt, maybe_retry, Report,
  new_attempt, holds_token, is_zero,
}
use ci_system.Consistency.Defs.{Consistent}
use ci_system.Consistency.Moves.{settle, retry}
use ci_system.Consistency.Later.{Consistent-later}

module _ ⦃rt : Runtime⦄ where
  pub maybe_retry-Consistent :
      (k : Text) (a a' : JobAttempt) (j : Job) (w : World)
      → Consistent w
      → get w.attempts k ≡ some a
      → get w.jobs a.job_id ≡ some j
      → is_active a.status ≡ true
      → a'.job_id ≡ a.job_id
      → a'.attempt_number ≡ a.attempt_number
      → is_active a'.status ≡ false
      → Consistent
          (maybe_retry a.job_id j a.attempt_number
            (save_attempt k a' (record w { readings = suc w.readings }))).1
  unfolding maybe_retry
  maybe_retry-Consistent k a a' j w c ea ej act own number idle =
      elim (Bool-cases (leb config.max_job_attempts a.attempt_number)) [
        | inl spent ↦
            rw (maybe_retry, spent)
              (settle (suc w.readings) k a a' j _ c (omega arith) ea ej act own number (λ h. cc)
                (λ h. cc))
        | inr left ↦
            rw (maybe_retry, left)
              (retry (suc (suc (suc w.readings))) (suc w.readings) k a a'
                (new_attempt a.job_id (suc a.attempt_number) _) j _ c (omega arith) (omega arith) ea
                ej act own number idle refl refl (ground arith) refl refl)
      ]

  pub finish_attempt-Consistent :
      (k : Text) (a : JobAttempt) (j : Job) (r : Report) (w : World)
      → Consistent w
      → get w.attempts k ≡ some a
      → get w.jobs a.job_id ≡ some j
      → is_active a.status ≡ true
      → Consistent (finish_attempt k a j r w).1
  unfolding finish_attempt
  finish_attempt-Consistent k a j r w c ea ej act = elim (Bool-cases (is_zero r.exit_code)) [
    | inl z ↦
        rw (finish_attempt, z)
          (settle (suc w.readings) k a _ j _ c (omega arith) ea ej act refl refl (λ h. cc)
            (λ h. cc))
    | inr nz ↦ elim (Bool-cases r.is_permanent_failure) [
      | inl p ↦
          rw (finish_attempt, nz, p)
            (settle (suc w.readings) k a _ j _ c (omega arith) ea ej act refl refl (λ h. cc)
              (λ h. cc))
      | inr np ↦
          rw (finish_attempt, nz, np) (maybe_retry-Consistent k a _ j w c ea ej act refl refl refl)
    ]
  ]

  complete_valid-Consistent :
      (k : Text) (a : JobAttempt) (r : Report) (w : World)
      → Consistent w
      → get w.attempts k ≡ some a
      → is_active a.status ≡ true
      → Consistent (complete_valid k a r w).1
  unfolding complete_valid
  complete_valid-Consistent k a r w c ea act = elim (Option-cases (get w.jobs a.job_id)) [
    | inl e ↦ rw (complete_valid, e) c
    | inr (j, e) ↦ rw (complete_valid, e) (finish_attempt-Consistent k a j r w c ea e act)
  ]

  complete_leased-Consistent :
      (k : Text) (a : JobAttempt) (r : Report) (o : Option ℕ) (w : World)
      → Consistent w
      → get w.attempts k ≡ some a
      → is_active a.status ≡ true
      → Consistent (complete_leased k a r o w).1
  unfolding complete_leased
  complete_leased-Consistent k a r none w c ea act = c
  complete_leased-Consistent k a r (some e) w c ea act =
      let c' = Consistent-later (suc w.readings) (omega arith) c in
      elim (Bool-cases (ltb e (rt.host.clock w.readings))) [
        | inl late ↦ rw (complete_leased, late) c'
        | inr valid ↦
            rw (complete_leased, valid)
              (complete_valid-Consistent k a r (record w { readings = suc w.readings }) c' ea act)
      ]

  -- A report keeps the invariant.
  pub complete_attempt-Consistent :
      (k t : Text) (r : Report) (w : World) → Consistent w → Consistent (complete_attempt k t r w).1
  unfolding complete_attempt
  complete_attempt-Consistent k t r w c = elim (Option-cases (get w.attempts k)) [
    | inl e ↦ rw (complete_attempt, e) c
    | inr (a, e) ↦ elim (Bool-cases (holds_token a.lease_token t)) [
      | inr h ↦ rw (complete_attempt, e) (rw h c)
      | inl h ↦ elim (Bool-cases (is_active a.status)) [
        | inr idle ↦ rw (complete_attempt, e) (rw (h, idle) c)
        | inl act ↦
            rw (complete_attempt, e)
              (rw (h, act) (complete_leased-Consistent k a r a.lease_expires_at w c e act))
      ]
    ]
  ]
