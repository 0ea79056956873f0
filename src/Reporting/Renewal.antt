-- ===== src/Reporting/Renewal.antt =====
-- What the route `renew` of backend/app/api/attempts.py does on each of its branches.
use ci_system.Prelude.{
  none, arith, Option, false, ◌&&◌, ℕ, ◌+◌, ◌*◌, ◌≡◌, ◌⊎◌, refl, inl, inr, true, Text, some,
  Option-cases, Bool-cases,
}
use mathlib.Core.Path.{subst}
use ci_system.Config.{second}
use ci_system.Models.{JobAttempt, AttemptStatus, is_active}
use ci_system.Runtime.{Runtime, config, get}
use ci_system.World.{World}
use ci_system.Lease.{holds_token, renew_lease, mark_running}
use ci_system.Api.Reply.{ok, error}
use ci_system.Api.Attempts.{renew, after_renewal}
use ci_system.Reporting.Outcome.{put_self}

module _ ⦃rt : Runtime⦄ where
  -- A renewed attempt runs, and its lease lasts for its full length from the reading of the clock.
  abbrev pub renewed_row : JobAttempt → ℕ → JobAttempt
  renewed_row a t = record a {
    status = AttemptStatus.running;
    lease_expires_at = some (t + config.job_lease_seconds * second);
  }

  -- A renewal is refused and changes nothing, and then no active attempt of this name has the
  -- token; or the token is that of the active attempt, which then runs under a lease of full length.
  pub renewal_cases :
      (k t : Text) (w : World)
      → ((renew k t w ≡ (error 409, w))
          × ((b : JobAttempt)
              → get w.attempts k ≡ some b
              → (holds_token b.lease_token t && is_active b.status) ≡ false))
        ⊎ ((a : JobAttempt) × (get w.attempts k ≡ some a)
            × (holds_token a.lease_token t ≡ true)
            × (is_active a.status ≡ true)
            × ((renew k t w).0 ≡ ok tt)
            × (get (renew k t w).1.attempts k ≡ some (renewed_row a (rt.host.clock w.readings))))
  unfolding renew renew_lease after_renewal mark_running
  renewal_cases k t w = elim (Option-cases (get w.attempts k)) [
    | inl e ↦ inl (rw (renew, renew_lease, e) refl, λ b eb. ground arith)
    | inr (a, e) ↦ elim (Bool-cases (holds_token a.lease_token t)) [
      | inr other ↦
          inl (rw (renew, renew_lease, e) (rw other refl), λ b eb. same a b e eb (ground arith))
      | inl holds ↦ elim (Bool-cases (is_active a.status)) [
        | inr idle ↦ inl (
          rw (renew, renew_lease, e) (rw (holds, idle) refl),
          λ b eb. same a b e eb (ground arith),
        )
        | inl act ↦
            let renewed : JobAttempt = record a {
              lease_expires_at =
                  some (rt.host.clock w.readings + config.job_lease_seconds * second);
            } in
            let done : ((renew k t w).0 ≡ ok tt)
                × (get (renew k t w).1.attempts k
                    ≡ some (renewed_row a (rt.host.clock w.readings))) =
              rw (renew, renew_lease, e)
                (rw (holds, act)
                  (rw (mark_running, put_self w.attempts k renewed)
                    (rw holds (refl, put_self _ k _)))) in
            inr (a, e, holds, act, done.0, done.1)
      ]
    ]
  ]
    where
      refusing : Option JobAttempt → Type 0
      refusing none = Unit
      refusing (some b) = (holds_token b.lease_token t && is_active b.status) ≡ false

      same :
          (a b : JobAttempt)
          → get w.attempts k ≡ some a
          → get w.attempts k ≡ some b
          → (holds_token a.lease_token t && is_active a.status) ≡ false
          → (holds_token b.lease_token t && is_active b.status) ≡ false
      same a b ea eb h =
          let one : some a ≡ some b = cc in subst (λ (o : Option JobAttempt). refusing o) one h
