-- ===== src/Reporting/Acceptance.antt =====
-- Which reports are accepted.
use ci_system.Prelude.{
  ℕ, suc, ◌≤◌, ◌≡◌, ◌≢◌, refl, ◌↔◌, ap, ◌⊎◌, Bool, inl, inr, true, false, Text, text_eq_iff,
  text_eq_refl, Option, none, some, arith, Option-cases, Bool-cases, ltb,
}
use ci_system.Models.{JobAttempt, is_active}
use ci_system.Runtime.{Runtime, get}
use ci_system.World.{World}
use ci_system.Lease.{Report, holds_token, complete_attempt, complete_leased, complete_valid}
use ci_system.Consistency.{Consistent}

module _ ⦃rt : Runtime⦄ where
  -- The lease that a report needs: the token fits, the attempt is active and has not expired.
  pub record HoldsLease (w : World) (k t : Text) (a : JobAttempt) (e : ℕ) : Type 0 where
    pub stored : get w.attempts k ≡ some a
    pub token : a.lease_token ≡ some t
    pub active : is_active a.status ≡ true
    pub expiry : a.lease_expires_at ≡ some e
    pub in_time : rt.host.clock w.readings ≤ e

  pub complete-of-HoldsLease :
      (k t : Text) (r : Report) (w : World) (a : JobAttempt) (e : ℕ)
      → HoldsLease w k t a e
      → complete_attempt k t r w ≡ complete_valid k a r (record w { readings = suc w.readings })
  unfolding complete_attempt complete_leased
  complete-of-HoldsLease k t r w a e h =
      rw (complete_attempt, h.stored)
        (rw (h.token, text_eq_refl t, h.active, h.expiry) (rw (complete_leased, in_time) refl))
    where
      in_time : ltb e (rt.host.clock w.readings) ≡ false
      in_time = let le = h.in_time in ground arith

  -- What a report without a lease leaves: at most one more reading of the clock.
  abbrev pub Ignored : World → Option (Text × Bool) × World → Type 0
  Ignored w r = (r ≡ (none, w)) ⊎ (r ≡ (none, record w { readings = suc w.readings }))

  pub report_cases :
      (k t : Text) (r : Report) (w : World)
      → Ignored w (complete_attempt k t r w) ⊎ ((a : JobAttempt) × (e : ℕ) × HoldsLease w k t a e)
  unfolding complete_attempt complete_leased
  report_cases k t r w = elim (Option-cases (get w.attempts k)) [
    | inl e ↦ inl (inl (rw (complete_attempt, e)))
    | inr (a, e) ↦ elim (Bool-cases (holds_token a.lease_token t)) [
      | inr other ↦ inl (inl (rw (complete_attempt, e) (rw other)))
      | inl holds ↦ elim (Bool-cases (is_active a.status)) [
        | inr idle ↦ inl (inl (rw (complete_attempt, e) (rw (holds, idle))))
        | inl act ↦ elim (Option-cases a.lease_expires_at) [
          | inl x ↦ inl (inl (rw (complete_attempt, e) (rw (holds, act, x))))
          | inr (i, x) ↦ elim (Bool-cases (ltb i (rt.host.clock w.readings))) [
            | inl late ↦
                inl
                  (inr (rw (complete_attempt, e) (rw (holds, act, x) (rw (complete_leased, late)))))
            | inr timely ↦ inr (
              a,
              i,
              record {
                stored = e;
                token = token_of a.lease_token holds;
                active = act;
                expiry = x;
                in_time = ground arith;
              },
            )
          ]
        ]
      ]
    ]
  ]
    where
      token_of : (o : Option Text) → holds_token o t ≡ true → o ≡ some t
      token_of none h = cc
      token_of (some s) h = ground (arith, text_eq_iff s t)

  -- A report under a lease is accepted.
  accepted-of-HoldsLease :
      (k t : Text) (r : Report) (w : World) (a : JobAttempt) (e : ℕ)
      → Consistent w
      → HoldsLease w k t a e
      → (complete_attempt k t r w).0 ≢ none
  unfolding complete_valid
  accepted-of-HoldsLease k t r w a e c h = elim (Option-cases (get w.jobs a.job_id)) [
    | inl missing ↦ absurd (c.linked k a h.stored missing)
    | inr (j, ej) ↦ rw (complete-of-HoldsLease k t r w a e h) (rw (complete_valid, ej) (λ x. cc))
  ]

  -- In a consistent world a report is accepted exactly when the token is that of an active attempt
  -- whose lease has not expired by the clock.
  pub report_accepted_iff :
      (k t : Text) (r : Report) (w : World)
      → Consistent w
      → ((complete_attempt k t r w).0 ≢ none) ↔ ((a : JobAttempt) × (e : ℕ) × HoldsLease w k t a e)
  report_accepted_iff k t r w c = (only, λ (a, e, h). accepted-of-HoldsLease k t r w a e c h)
    where
      only : (complete_attempt k t r w).0 ≢ none → (a : JobAttempt) × (e : ℕ) × HoldsLease w k t a e
      only ne = elim (report_cases k t r w) [
        | inr lease ↦ lease
        | inl (inl same) ↦ absurd (ne (ap (λ (x : Option (Text × Bool) × World). x.0) same))
        | inl (inr later) ↦ absurd (ne (ap (λ (x : Option (Text × Bool) × World). x.0) later))
      ]

  -- `complete_attempt` ignores every report that it does not accept.
  pub refused_report-Ignored :
      (k t : Text) (r : Report) (w : World)
      → Consistent w
      → (complete_attempt k t r w).0 ≡ none
      → Ignored w (complete_attempt k t r w)
  refused_report-Ignored k t r w c refused = elim (report_cases k t r w) [
    | inl ignored ↦ ignored
    | inr (a, e, h) ↦ absurd (accepted-of-HoldsLease k t r w a e c h refused)
  ]
