-- ===== src/Agent/Client.antt =====
-- backend/app/worker/worker.py: the worker. The requests of its two background threads are
-- `heartbeat_round` and `renew_round`; what they do between two calls of the main thread is part of
-- the requests that `others` names.
use ci_system.Prelude.{
  ℕ, zero, suc, ◌-◌, true, Text, codes, Option, none, some, List, [], ◌∷◌, ◌++◌, if◌then◌else◌,
}
use ci_system.Prelude.Int.{pos}
use ci_system.Prelude.Lists.{length, drop}
use ci_system.Runtime.{Runtime, parse_pipeline}
use ci_system.World.{World}
use ci_system.Lease.{Report}
use ci_system.Api.Reply.{Reply, ok, no_content, error}
use ci_system.Api.Attempts.{append_log, renew, complete}
use ci_system.Api.Workers.{LeaseClaim, register_worker, heartbeat, claim_job}
use ci_system.Agent.Docker.{Docker}
use ci_system.Agent.Executor.{ExecutionResult, Outcome, returned, raised, unfinished, Session}
use ci_system.Agent.Steps.{run_pipeline}
use ci_system.Agent.Network.{Network, Client, post, raise_for_status}

-- What `_try_claim` gives: none, a lease, or an `httpx.HTTPError`.
pub data Claimed : Type 0 where
  idle http_error : Claimed
  claimed : LeaseClaim → Claimed

abbrev pub read_claim : Option (Reply LeaseClaim) → Claimed
read_claim (some no_content) = idle
read_claim (some (ok lease)) = claimed lease
read_claim (some (error status)) = http_error
read_claim none = http_error

abbrev pub read_id : Option (Reply Text) → Option Text
read_id (some (ok worker_id)) = some worker_id
read_id _ = none

-- `"".join(…)`
abbrev pub join : List Text → Text
join [] = []
join (chunk ∷ chunks) = chunk ++ join chunks

-- `log_buffer[-50:]`
abbrev pub last_chunks : List Text → List Text
last_chunks log_buffer = drop (length log_buffer - 50) log_buffer

-- A token that is null does not pass the validation of the payload.
abbrev pub with_token :
    ⦃rt : Runtime⦄
    → {A : Type 0} → Option Text
    → (Text → World → Reply A × World)
    → World
    → Reply A × World
with_token none handler w = (error 422, w)
with_token (some lease_token) handler w = handler lease_token w

abbrev pub attempt_report : ExecutionResult → Report
attempt_report result = record {
  exit_code = result.exit_code;
  is_permanent_failure = result.is_permanent_failure;
  failed_step = result.failed_step;
}

abbrev pub parse_failure : Report
parse_failure = record {
  exit_code = pos 1;
  is_permanent_failure = true;
  failed_step = some (codes "pipeline_parse");
}

module _ ⦃rt : Runtime⦄ ⦃net : Network⦄ where
  -- One round of `register`'s loop for each unit of fuel; no identifier when `_stop` is set.
  unfoldable pub register : ℕ → Text → Client → Outcome (Option Text) × Client
  unfolding post register_worker
  register zero name c = (unfinished, c)
  register (suc rounds) name c =
      let (reply, c') = post (register_worker name (pos 1)) c in
      let later = register rounds name c' in
      if net.stops c.calls then (returned none, c) else elim (read_id (raise_for_status reply)) [
        | some worker_id ↦ (returned (some worker_id), c')
        | none ↦ later
      ]

  unfoldable pub heartbeat_round : Text → Client → Client
  unfolding post heartbeat
  heartbeat_round worker_id c = (post (heartbeat worker_id) c).1

  unfoldable pub renew_round : Text → Option Text → Client → Client
  unfolding post renew
  renew_round attempt_id lease_token c = (post (with_token lease_token (renew attempt_id)) c).1

  unfoldable pub try_claim : Text → Client → Claimed × Client
  unfolding post claim_job
  try_claim worker_id c = let (reply, c') = post (claim_job worker_id) c in (read_claim reply, c')

  unfoldable pub on_log : Text → Option Text → Text → Client → Client
  unfolding post append_log
  on_log attempt_id lease_token chunk c =
      (post (with_token lease_token (λ token. append_log attempt_id token chunk))
        (record c { log_buffer = c.log_buffer ++ (chunk ∷ []) })).1

  unfoldable pub report : Text → Option Text → Report → Text → Client → Client
  unfolding post complete
  report attempt_id lease_token verdict logs_tail c =
      (post
        (with_token lease_token (λ token.
          complete attempt_id token (record { report = verdict; logs_tail = some logs_tail })))
        c).1

module _ ⦃rt : Runtime⦄ ⦃net : Network⦄ ⦃dk : Docker⦄ where
  -- The report of what the execution returned.
  unfoldable pub report_outcome :
      LeaseClaim → Outcome ExecutionResult × Session Client → Outcome (Unit {0}) × Session Client
  unfolding report
  report_outcome lease (raised, s) = (raised, s)
  report_outcome lease (unfinished, s) = (unfinished, s)
  report_outcome lease (returned result, s) = (
    returned tt,
    record s {
      client =
          report lease.attempt_id lease.lease_token (attempt_report result)
            (join (last_chunks s.client.log_buffer)) s.client;
    },
  )

  -- `_execute`
  unfoldable pub execute : LeaseClaim → Session Client → Outcome (Unit {0}) × Session Client
  unfolding on_log run_pipeline report_outcome
  execute lease s = elim (parse_pipeline lease.pipeline_yaml) [
    | none ↦ (
      returned tt,
      record s {
        client =
            report lease.attempt_id lease.lease_token parse_failure
              (codes "pipeline config invalid: " ++ net.parse_error lease.pipeline_yaml) s.client;
      },
    )
    | some pipeline ↦ report_outcome lease (
        run_pipeline (on_log lease.attempt_id lease.lease_token) pipeline lease.repo_url
          lease.commit_sha lease.attempt_id
          (record s { client = record s.client { log_buffer = [] } }))
  ]

  -- One round of the loop of `run_forever`.
  unfoldable pub work_round : Text → Session Client → Outcome (Unit {0}) × Session Client
  unfolding try_claim execute
  work_round worker_id s =
      let (claim, c) = try_claim worker_id s.client in
      let s' : Session Client = record s { client = c } in
      elim claim [
        | idle ↦ (returned tt, s')
        | http_error ↦ (returned tt, s')
        | claimed lease ↦ execute lease s'
      ]

  -- The loop of `run_forever`, which ends when `_stop` is set or by another exception than an
  -- `httpx.HTTPError`.
  unfoldable pub work : ℕ → Text → Session Client → Outcome (Unit {0}) × Session Client
  unfolding work_round
  work zero worker_id s = (unfinished, s)
  work (suc rounds) worker_id s =
      let (outcome, s') = work_round worker_id s in
      let later = work rounds worker_id s' in
      if net.stops s.client.calls then (returned tt, s) else elim outcome [
        | returned done ↦ later
        | raised ↦ (raised, s')
        | unfinished ↦ (unfinished, s')
      ]

  -- `run_forever`: a worker that stops before it is registered serves no round.
  unfoldable pub run_forever : ℕ → Text → Session Client → Outcome (Unit {0}) × Session Client
  unfolding register work
  run_forever rounds name s =
      let (registered, c) = register rounds name s.client in
      let s' : Session Client = record s { client = c } in
      elim registered [
        | raised ↦ (raised, s')
        | unfinished ↦ (unfinished, s')
        | returned none ↦ (returned tt, s')
        | returned (some worker_id) ↦ work rounds worker_id s'
      ]
