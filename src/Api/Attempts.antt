-- ===== src/Api/Attempts.antt =====
-- backend/app/api/attempts.py
use ci_system.Prelude.{
  Bool, true, false, not, ◌||◌, Text, Option, none, some, [], ◌∷◌, ◌++◌, if◌then◌else◌,
}
use ci_system.Models.{JobAttempt, is_active, is_failure}
use ci_system.Runtime.{Runtime, get}
use ci_system.World.{World, log_chunk, status_change, save_attempt}
use ci_system.Lease.{Report, holds_token, renew_lease, mark_running, complete_attempt}
use ci_system.Ai.Analyzer.{analyze_attempt}
use ci_system.Api.Reply.{Reply, ok, error}

-- `schemas.AttemptReport` without its token.
pub record AttemptReport : Type 0 where
  pub report : Report
  pub logs_tail : Option Text

module _ ⦃rt : Runtime⦄ where
  -- `attempt.logs = (attempt.logs or "") + chunk`
  abbrev pub extend_logs : Text → JobAttempt → Text → World → World
  extend_logs attempt_id attempt chunk w =
      save_attempt attempt_id (record attempt { logs = attempt.logs ++ chunk }) w

  unfoldable pub append_log : Text → Text → Text → World → Reply (Unit {0}) × World
  append_log attempt_id lease_token chunk w = elim (get w.attempts attempt_id) [
    | none ↦ (error 409, w)
    | some attempt ↦
        if not (holds_token attempt.lease_token lease_token) || not (is_active attempt.status)
        then (error 409, w)
        else let w' = extend_logs attempt_id attempt chunk w in
          (ok tt, record w' { published = log_chunk attempt_id chunk ∷ w'.published })
  ]

  unfoldable pub get_logs : Text → World → Reply Text
  get_logs attempt_id w = elim (get w.attempts attempt_id) [
    | none ↦ error 404
    | some attempt ↦ ok attempt.logs
  ]

  unfoldable pub after_renewal : Text → Text → Bool × World → Reply (Unit {0}) × World
  unfolding mark_running
  after_renewal attempt_id lease_token (false, w) = (error 409, w)
  after_renewal attempt_id lease_token (true, w) =
      let (marked, w') = mark_running attempt_id lease_token w in (ok tt, w')

  unfoldable pub renew : Text → Text → World → Reply (Unit {0}) × World
  unfolding after_renewal renew_lease
  renew attempt_id lease_token w =
      after_renewal attempt_id lease_token (renew_lease attempt_id lease_token w)

  -- The first lines of `complete`: the last chunk is stored when the token fits, whatever the
  -- status of the attempt.
  unfoldable pub store_tail : Text → Text → Option Text → World → World
  store_tail attempt_id lease_token none w = w
  store_tail attempt_id lease_token (some []) w = w
  store_tail attempt_id lease_token (some (c ∷ cs)) w = elim (get w.attempts attempt_id) [
    | none ↦ w
    | some attempt ↦
        if holds_token attempt.lease_token lease_token
        then extend_logs attempt_id attempt (c ∷ cs) w
        else w
  ]

  -- The status message and, for a failure, the background task.
  unfoldable pub announce : Text → JobAttempt → Bool → World → World
  announce attempt_id attempt requeued w =
      let w' = record w {
        published = status_change attempt.job_id attempt_id attempt.status requeued ∷ w.published;
      } in
      if is_failure attempt.status
      then record w' { background = attempt_id ∷ w'.background }
      else w'

  unfoldable pub answer_report : Option (Text × Bool) × World → Reply (Unit {0}) × World
  unfolding announce
  answer_report (none, w) = (error 409, w)
  answer_report (some (attempt_id, requeued), w) = elim (get w.attempts attempt_id) [
    | none ↦ (ok tt, w)
    | some attempt ↦ (ok tt, announce attempt_id attempt requeued w)
  ]

  unfoldable pub complete : Text → Text → AttemptReport → World → Reply (Unit {0}) × World
  unfolding answer_report
  complete attempt_id lease_token payload w = answer_report (
      complete_attempt attempt_id lease_token payload.report
        (store_tail attempt_id lease_token payload.logs_tail w))

  -- The background task; every exception is swallowed.
  unfoldable pub run_analysis : Text → World → World
  run_analysis attempt_id w = elim (get w.attempts attempt_id) [
    | none ↦ w
    | some attempt ↦ (analyze_attempt attempt_id attempt w).1
  ]
