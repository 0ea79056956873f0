-- ===== src/Consistency/Attempts.antt =====
-- The invariant under the routes of backend/app/api/attempts.py.
use ci_system.Prelude.{
  sym, ◌+◌, ◌*◌, ◌≡◌, refl, inl, inr, Bool, ◌||◌, true, false, Text, not, text_eq_refl, Option,
  none, some, [], ◌∷◌, arith, Option-cases, Bool-cases,
}
use ci_system.Models.{JobAttempt, is_active, is_failure}
use ci_system.Runtime.{Runtime, config, get, get-put}
use ci_system.World.{World}
use ci_system.Config.{second}
use ci_system.Lease.{renew_lease, mark_running, complete_attempt, holds_token}
use ci_system.Consistency.Defs.{Consistent}
use ci_system.Consistency.Moves.{touch}
use ci_system.Consistency.Leases.{renew_lease-Consistent}
use ci_system.Consistency.Reports.{complete_attempt-Consistent}
use ci_system.Api.Attempts.{
  AttemptReport, append_log, renew, complete, extend_logs, after_renewal, store_tail, answer_report,
  announce,
}

module _ ⦃rt : Runtime⦄ where
  extend_logs-Consistent :
      (k chunk : Text) (a : JobAttempt) (w : World)
      → Consistent w
      → get w.attempts k ≡ some a
      → Consistent (extend_logs k a chunk w)
  extend_logs-Consistent k chunk a w c e =
      touch w.readings k a _ c (omega arith) e refl refl refl (λ j ej act ag. ag)

  pub append_log-Consistent :
      (k t chunk : Text) (w : World) → Consistent w → Consistent (append_log k t chunk w).1
  unfolding append_log
  append_log-Consistent k t chunk w c = elim (Option-cases (get w.attempts k)) [
    | inl e ↦ rw (append_log, e) c
    | inr (a, e) ↦
        elim (Bool-cases (not (holds_token a.lease_token t) || not (is_active a.status))) [
          | inl stale ↦ rw (append_log, e) (rw stale c)
          | inr valid ↦ rw (append_log, e) (rw valid (extend_logs-Consistent k chunk a w c e))
        ]
  ]

  pub store_tail-Consistent :
      (k t : Text) (tail : Option Text) (w : World)
      → Consistent w
      → Consistent (store_tail k t tail w)
  unfolding store_tail
  store_tail-Consistent k t none w c = c
  store_tail-Consistent k t (some []) w c = c
  store_tail-Consistent k t (some (x ∷ xs)) w c = elim (Option-cases (get w.attempts k)) [
    | inl e ↦ rw (store_tail, e) c
    | inr (a, e) ↦ elim (Bool-cases (holds_token a.lease_token t)) [
      | inr other ↦ rw (store_tail, e) (rw other c)
      | inl holds ↦ rw (store_tail, e) (rw holds (extend_logs-Consistent k (x ∷ xs) a w c e))
    ]
  ]

  -- The answer to a report changes no table.
  answer_report-Consistent :
      (r : Option (Text × Bool)) (w : World) → Consistent w → Consistent (answer_report (r, w)).1
  unfolding answer_report
  answer_report-Consistent none w c = c
  answer_report-Consistent (some (k, q)) w c = elim (Option-cases (get w.attempts k)) [
    | inl e ↦ rw (answer_report, e) c
    | inr (a, e) ↦ elim (Bool-cases (is_failure a.status)) [
      | inl f ↦ rw (answer_report, e) (rw (announce, f) c)
      | inr s ↦ rw (answer_report, e) (rw (announce, s) c)
    ]
  ]

  pub complete-Consistent :
      (k t : Text) (p : AttemptReport) (w : World) → Consistent w → Consistent (complete k t p w).1
  unfolding complete
  complete-Consistent k t p w c =
      let (r, w') = complete_attempt k t p.report (store_tail k t p.logs_tail w) in
      answer_report-Consistent r w'
        (complete_attempt-Consistent k t p.report _ (store_tail-Consistent k t p.logs_tail w c))

  mark_running-Consistent :
      (k t : Text) (w : World)
      → Consistent w
      → ((a : JobAttempt) → get w.attempts k ≡ some a → is_active a.status ≡ true)
      → Consistent (mark_running k t w).1
  unfolding mark_running
  mark_running-Consistent k t w c h = elim (Option-cases (get w.attempts k)) [
    | inl e ↦ rw (mark_running, e) c
    | inr (a, e) ↦ elim (Bool-cases (holds_token a.lease_token t)) [
      | inr other ↦ rw (mark_running, e) (rw other c)
      | inl holds ↦
          rw (mark_running, e)
            (rw holds (
              touch w.readings k a _ c (omega arith) e refl refl (sym (h a e)) (λ j ej act ag. ag)))
    ]
  ]

  -- An attempt whose lease was renewed is active.
  renewed_active :
      (k t : Text) (w : World) (a : JobAttempt)
      → (renew_lease k t w).0 ≡ true
      → get (renew_lease k t w).1.attempts k ≡ some a
      → is_active a.status ≡ true
  unfolding renew_lease
  renewed_active k t w a h e = elim (Option-cases (get w.attempts k)) [
    | inl none_there ↦ ground arith
    | inr (b, eb) ↦
        let renewed : JobAttempt = record b {
          lease_expires_at = some (rt.host.clock w.readings + config.job_lease_seconds * second);
        } in
        ground (arith, get-put w.attempts k k renewed, text_eq_refl k)
  ]

  pub renew-Consistent : (k t : Text) (w : World) → Consistent w → Consistent (renew k t w).1
  unfolding renew
  renew-Consistent k t w c =
      after (renew_lease k t w) (renew_lease-Consistent k t w c) (renewed_active k t w)
    where
      after :
          (r : Bool × World)
          → Consistent r.1
          → ((a : JobAttempt)
              → r.0 ≡ true
              → get r.1.attempts k ≡ some a
              → is_active a.status ≡ true)
          → Consistent (after_renewal k t r).1
      after (false, w') c' h = c'
      after (true, w') c' h = mark_running-Consistent k t w' c' (λ a e. h a refl e)
