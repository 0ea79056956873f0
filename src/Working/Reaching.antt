-- ===== src/Working/Reaching.antt =====
-- The worker takes no step that the server does not allow to anyone.
use ci_system.Prelude.{
  ℕ, zero, suc, ◌≡◌, refl, Text, Option, none, some, List, [], ◌∷◌, ◌++◌, Option-cases, inl, inr,
  Bool-cases,
}
use ci_system.Prelude.Int.{pos}
use ci_system.Runtime.{Runtime, parse_pipeline}
use ci_system.World.{World}
use ci_system.Lease.{Report}
use ci_system.Api.Reply.{Reply}
use ci_system.Api.Attempts.{AttemptReport, append_log, complete}
use ci_system.Api.Workers.{LeaseClaim, register_worker, claim_job}
use ci_system.Server.{
  Request, serve, Reach, follows, serves, registers_worker, claims, appends_log, completes,
}
use ci_system.Agent.Docker.{Docker}
use ci_system.Agent.Executor.{ExecutionResult, Outcome, returned, raised, unfinished, Session}
use ci_system.Agent.Network.{
  Network, Client, Delivery, answered, answer_lost, not_sent, found, serve_all, post,
  raise_for_status,
}
use ci_system.Agent.Client.{
  Claimed, idle, http_error, claimed, with_token, register, try_claim, on_log, report,
  report_outcome, execute, work_round, work, run_forever, read_id, parse_failure, attempt_report,
}
use ci_system.Execution.Cases.{Outcome-cases, has_returned, has_raised, is_unfinished}
use ci_system.Execution.Clients.{run_pipeline-client}

module _ ⦃rt : Runtime⦄ where
  pub serve_all-Reach : (qs : List Request) (w : World) → Reach w → Reach (serve_all qs w)
  unfolding serve_all
  serve_all-Reach [] w r = r
  serve_all-Reach (q ∷ qs) w r = serve_all-Reach qs (serve q w) (follows r (serves q))

module _ ⦃rt : Runtime⦄ ⦃net : Network⦄ where
  post-Reach :
      {A : Type 0} (handler : World → Reply A × World) (c : Client)
      → ((w : World) → Reach w → Reach (handler w).1)
      → Reach c.world
      → Reach (post handler c).1.world
  unfolding post
  post-Reach handler c keeps r =
      let there = serve_all-Reach (net.others c.calls) c.world r in
      let served = keeps (found c) there in cases (net.delivery c.calls) refl there served
    where
      cases :
          (d : Delivery)
          → net.delivery c.calls ≡ d
          → Reach (found c)
          → Reach (handler (found c)).1
          → Reach (post handler c).1.world
      cases answered e there served = rw (post, e) served
      cases answer_lost e there served = rw (post, e) served
      cases not_sent e there served = rw (post, e) there

  with_token-Reach :
      {A : Type 0} (t : Option Text) (handler : Text → World → Reply A × World)
      → ((u : Text) (w : World) → Reach w → Reach (handler u w).1)
      → (w : World) → Reach w
      → Reach (with_token t handler w).1
  with_token-Reach none handler keeps w r = r
  with_token-Reach (some u) handler keeps w r = keeps u w r

  pub on_log-Reach :
      (k : Text) (t : Option Text) (chunk : Text) (c : Client)
      → Reach c.world
      → Reach (on_log k t chunk c).world
  unfolding on_log serve
  on_log-Reach k t chunk c r =
      let send : Text → World → Reply (Unit {0}) × World = λ u. append_log k u chunk in
      post-Reach (with_token t send) (record c { log_buffer = c.log_buffer ++ (chunk ∷ []) })
        (with_token-Reach t send (λ u w v. follows v (serves (appends_log k u chunk)))) r

  pub report-Reach :
      (k : Text) (t : Option Text) (v : Report) (tail : Text) (c : Client)
      → Reach c.world
      → Reach (report k t v tail c).world
  unfolding report serve
  report-Reach k t v tail c r =
      let payload : AttemptReport = record { report = v; logs_tail = some tail } in
      let send : Text → World → Reply (Unit {0}) × World = λ u. complete k u payload in
      post-Reach (with_token t send) c
        (with_token-Reach t send (λ u w r. follows r (serves (completes k u payload)))) r

  try_claim-Reach :
      (worker_id : Text) (c : Client) → Reach c.world → Reach (try_claim worker_id c).1.world
  unfolding try_claim serve
  try_claim-Reach worker_id c r =
      post-Reach (claim_job worker_id) c (λ w v. follows v (serves (claims worker_id))) r

  register-Reach :
      (rounds : ℕ) (name : Text) (c : Client)
      → Reach c.world
      → Reach (register rounds name c).1.world
  unfolding register serve
  register-Reach zero name c r = r
  register-Reach (suc rounds) name c r =
      let answer = post (register_worker name (pos 1)) c in
      let r' : Reach answer.1.world =
        post-Reach (register_worker name (pos 1)) c
          (λ w v. follows v (serves (registers_worker name (pos 1)))) r in
      elim (Bool-cases (net.stops c.calls)) [
        | inl stopped ↦ rw (register, stopped) r
        | inr on ↦ elim (Option-cases (read_id (raise_for_status answer.0))) [
          | inl failed ↦ rw (register, on) (rw failed (register-Reach rounds name answer.1 r'))
          | inr (i, e) ↦ rw (register, on) (rw e r')
        ]
      ]

module _ ⦃rt : Runtime⦄ ⦃net : Network⦄ ⦃dk : Docker⦄ where
  report_outcome-Reach :
      (lease : LeaseClaim) (o : Outcome ExecutionResult) (s : Session Client)
      → Reach s.client.world
      → Reach (report_outcome lease (o, s)).1.client.world
  unfolding report_outcome
  report_outcome-Reach lease raised s r = r
  report_outcome-Reach lease unfinished s r = r
  report_outcome-Reach lease (returned result) s r =
      report-Reach lease.attempt_id lease.lease_token (attempt_report result) _ s.client r

  execute-Reach :
      (lease : LeaseClaim) (s : Session Client)
      → Reach s.client.world
      → Reach (execute lease s).1.client.world
  unfolding execute
  execute-Reach lease s r = elim (Option-cases (parse_pipeline lease.pipeline_yaml)) [
    | inl e ↦
        rw (execute, e) (report-Reach lease.attempt_id lease.lease_token parse_failure _ s.client r)
    | inr (p, e) ↦
        rw (execute, e)
          (report_outcome-Reach lease _ _ (
            run_pipeline-client (on_log lease.attempt_id lease.lease_token) (λ c. Reach c.world)
              (on_log-Reach lease.attempt_id lease.lease_token) p lease.repo_url lease.commit_sha
              lease.attempt_id (record s { client = record s.client { log_buffer = [] } }) r))
  ]

  work_round-Reach :
      (worker_id : Text) (s : Session Client)
      → Reach s.client.world
      → Reach (work_round worker_id s).1.client.world
  unfolding work_round
  work_round-Reach worker_id s r =
      let claim = try_claim worker_id s.client in
      let r' = try_claim-Reach worker_id s.client r in goes claim.0 refl r'
    where
      goes :
          (x : Claimed)
          → (try_claim worker_id s.client).0 ≡ x
          → Reach (try_claim worker_id s.client).1.world
          → Reach (work_round worker_id s).1.client.world
      goes idle e h = rw (work_round, e) h
      goes http_error e h = rw (work_round, e) h
      goes (claimed lease) e h = rw (work_round, e) (execute-Reach lease _ h)

  work-Reach :
      (rounds : ℕ) (worker_id : Text) (s : Session Client)
      → Reach s.client.world
      → Reach (work rounds worker_id s).1.client.world
  unfolding work
  work-Reach zero worker_id s r = r
  work-Reach (suc rounds) worker_id s r =
      let did = work_round worker_id s in
      let r' = work_round-Reach worker_id s r in
      elim (Bool-cases (net.stops s.client.calls)) [
        | inl stopped ↦ rw (work, stopped) r
        | inr on ↦ elim (Outcome-cases did.0) [
          | has_returned u e ↦ rw (work, on) (rw e (work-Reach rounds worker_id did.1 r'))
          | has_raised e ↦ rw (work, on) (rw e r')
          | is_unfinished e ↦ rw (work, on) (rw e r')
        ]
      ]

  -- Whatever the worker executes, however its calls end, and whatever the server serves meanwhile,
  -- a reachable world of the server stays reachable.
  pub run_forever-Reach :
      (rounds : ℕ) (name : Text) (s : Session Client)
      → Reach s.client.world
      → Reach (run_forever rounds name s).1.client.world
  unfolding run_forever
  run_forever-Reach rounds name s r =
      let answer = register rounds name s.client in
      let r' = register-Reach rounds name s.client r in
      elim (Outcome-cases answer.0) [
        | has_raised e ↦ rw (run_forever, e) r'
        | is_unfinished e ↦ rw (run_forever, e) r'
        | has_returned found e ↦ elim (Option-cases found) [
          | inl none_found ↦ rw (run_forever, e) (rw none_found r')
          | inr (i, f) ↦ rw (run_forever, e) (rw f (work-Reach rounds i _ r'))
        ]
      ]
