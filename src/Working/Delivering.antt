-- ===== src/Working/Delivering.antt =====
-- From the report of the worker to the rows of the attempt and of its job.
use ci_system.Prelude.{
  ℕ, ◌≡◌, ◌≢◌, refl, sym, ◌∙◌, inl, inr, Bool, true, text_eq_refl, Text, Option, none, some, [],
  ◌∷◌, ◌++◌, append-nil, arith, Option-cases, Bool-cases,
}
use ci_system.Models.{JobAttempt, JobStatus, is_failure}
use ci_system.Pipeline.{Pipeline}
use ci_system.Runtime.{Runtime, config, get, parse_pipeline}
use ci_system.World.{World}
use ci_system.Lease.{Report, is_zero, holds_token, complete_attempt}
use ci_system.Api.Attempts.{AttemptReport, complete, store_tail, answer_report, announce}
use ci_system.Api.Workers.{LeaseClaim}
use ci_system.Server.{Reach}
use ci_system.Agent.Docker.{Docker}
use ci_system.Agent.Executor.{ExecutionResult, Outcome, returned, Session}
use ci_system.Agent.Steps.{run_pipeline}
use ci_system.Agent.Network.{
  Network, Client, Delivery, answered, answer_lost, not_sent, found, post,
}
use ci_system.Agent.Client.{on_log, report, report_outcome, execute, attempt_report}
use ci_system.Consistency.{Consistent}
use ci_system.Consistency.Attempts.{store_tail-Consistent}
use ci_system.Consistency.Reachable.{Reach-Consistent}
use ci_system.Finality.Requests.{answer_report-jobs}
use ci_system.Reporting.Acceptance.{HoldsLease}
use ci_system.Reporting.Outcome.{
  attempt_verdict, job_verdict, status_of, job_status_of, put_self, report_verdict,
}
use ci_system.Execution.Clients.{run_pipeline-client}
use ci_system.Execution.Evidence.{Carried}
use ci_system.Execution.Passing.{success-Carried}
use ci_system.Execution.Explanation.{AllPass, success_means_passed}
use ci_system.Working.Reaching.{serve_all-Reach, on_log-Reach}

module _ ⦃rt : Runtime⦄ where
  -- The rows of the attempt and of its job have the statuses of the verdict on the report.
  pub record Settled (w : World) (k : Text) (a : JobAttempt) (r : Report) : Type 0 where
    pub attempt_settled : status_of (get w.attempts k) ≡ some (attempt_verdict r)
    pub job_settled :
        job_status_of (get w.jobs a.job_id)
        ≡ some (job_verdict config.max_job_attempts a.attempt_number r)

  -- What `complete` appends to the logs.
  abbrev pub tail_text : Option Text → Text
  tail_text none = []
  tail_text (some tail) = tail

  -- The row under a lease with longer logs.
  pub record Extended (w : World) (k t : Text) (a : JobAttempt) (e : ℕ) (tail : Text) : Type 0 where
    pub row : JobAttempt
    pub lease : HoldsLease w k t row e
    pub same_job : row.job_id ≡ a.job_id
    pub same_number : row.attempt_number ≡ a.attempt_number
    pub longer : row.logs ≡ a.logs ++ tail

  unchanged :
      (w : World) (k t : Text) (a : JobAttempt) (e : ℕ)
      → HoldsLease w k t a e
      → Extended w k t a e []
  unchanged w k t a e h = record {
    row = a;
    lease = h;
    same_job = refl;
    same_number = refl;
    longer = sym (append-nil a.logs);
  }

  pub store_tail-Extended :
      (k t : Text) (tail : Option Text) (w : World) (a : JobAttempt) (e : ℕ)
      → HoldsLease w k t a e
      → Extended (store_tail k t tail w) k t a e (tail_text tail)
  unfolding store_tail
  store_tail-Extended k t none w a e h = unchanged w k t a e h
  store_tail-Extended k t (some []) w a e h = unchanged w k t a e h
  store_tail-Extended k t (some (x ∷ xs)) w a e h =
      let holds : holds_token a.lease_token t ≡ true = rw (h.token, text_eq_refl t) refl in
      rw (store_tail, h.stored)
        (rw holds (record {
          row = record a { logs = a.logs ++ (x ∷ xs) };
          lease = record {
            stored = put_self w.attempts k _;
            token = h.token;
            active = h.active;
            expiry = h.expiry;
            in_time = h.in_time;
          };
          same_job = refl;
          same_number = refl;
          longer = refl;
        }))

  pub answer_report-attempts :
      (r : Option (Text × Bool) × World) → (answer_report r).1.attempts ≡ r.1.attempts
  unfolding answer_report announce
  answer_report-attempts (none, w) = refl
  answer_report-attempts (some (k, q), w) = elim (Option-cases (get w.attempts k)) [
    | inl e ↦ rw (answer_report, e)
    | inr (a, e) ↦ elim (Bool-cases (is_failure a.status)) [
      | inl f ↦ rw (answer_report, e) (rw (announce, f) refl)
      | inr s ↦ rw (answer_report, e) (rw (announce, s) refl)
    ]
  ]

  complete-Settled :
      (k t : Text) (p : AttemptReport) (w : World) (a : JobAttempt) (e : ℕ)
      → Consistent w
      → HoldsLease w k t a e
      → Settled (complete k t p w).1 k a p.report
  unfolding complete
  complete-Settled k t p w a e c h =
      let w' = store_tail k t p.logs_tail w in
      let longer = store_tail-Extended k t p.logs_tail w a e h in
      let (q, s, v) =
        report_verdict k t p.report w' longer.row e (store_tail-Consistent k t p.logs_tail w c)
          longer.lease in
      let out = complete_attempt k t p.report w' in
      record {
        attempt_settled = rw (answer_report-attempts out) s;
        job_settled =
            rw (answer_report-jobs out) (rw (sym longer.same_job, sym longer.same_number) v);
      }

module _ ⦃rt : Runtime⦄ ⦃net : Network⦄ where
  report-Settled :
      (k t : Text) (token : Option Text) (r : Report) (tail : Text) (c : Client) (a : JobAttempt)
      (e : ℕ)
      → token ≡ some t
      → Reach c.world
      → HoldsLease (found c) k t a e
      → net.delivery c.calls ≢ not_sent
      → Settled (report k token r tail c).world k a r
  unfolding report post
  report-Settled k t token r tail c a e same reach h sent =
      let done =
        complete-Settled k t (record { report = r; logs_tail = some tail }) (found c) a e
          (Reach-Consistent (serve_all-Reach (net.others c.calls) c.world reach)) h in
      arrives (net.delivery c.calls) refl done
    where
      arrives :
          (d : Delivery)
          → net.delivery c.calls ≡ d
          → Settled (complete k t (record { report = r; logs_tail = some tail }) (found c)).1 k a r
          → Settled (report k token r tail c).world k a r
      arrives answered x done = rw (report, post, x, same) done
      arrives answer_lost x done = rw (report, post, x, same) done
      arrives not_sent x done = absurd (sent x)

module _ ⦃rt : Runtime⦄ ⦃net : Network⦄ ⦃dk : Docker⦄ where
  -- What `_execute` makes of a session before it runs the pipeline: an empty buffer.
  abbrev pub fresh : Session Client → Session Client
  fresh s = record s { client = record s.client { log_buffer = [] } }

  abbrev pub ran : LeaseClaim → Pipeline → Session Client → Outcome ExecutionResult × Session Client
  ran lease p s =
      run_pipeline (on_log lease.attempt_id lease.lease_token) p lease.repo_url lease.commit_sha
        lease.attempt_id (fresh s)

  pub worker_delivers_verdict :
      (lease : LeaseClaim) (s : Session Client) (p : Pipeline) (r : ExecutionResult) (t : Text)
      (a : JobAttempt) (e : ℕ)
      → Reach s.client.world
      → lease.lease_token ≡ some t
      → parse_pipeline lease.pipeline_yaml ≡ some p
      → (ran lease p s).0 ≡ returned r
      → HoldsLease (found (ran lease p s).1.client) lease.attempt_id t a e
      → net.delivery (ran lease p s).1.client.calls ≢ not_sent
      → Settled (execute lease s).1.client.world lease.attempt_id a (record {
        exit_code = r.exit_code;
        is_permanent_failure = r.is_permanent_failure;
        failed_step = r.failed_step;
      })
  unfolding execute report_outcome
  worker_delivers_verdict lease s p r t a e reach token parsed result h sent =
      let reach' =
        run_pipeline-client (on_log lease.attempt_id lease.lease_token) (λ c. Reach c.world)
          (on_log-Reach lease.attempt_id lease.lease_token) p lease.repo_url lease.commit_sha
          lease.attempt_id (fresh s) reach in
      rw (execute, parsed)
        (rw (report_outcome, result)
          (report-Settled lease.attempt_id t lease.lease_token (attempt_report r) _
            (ran lease p s).1.client a e token reach' h sent))

  -- When an execution returns a result and its report, which reaches the server while the lease
  -- holds, leaves the job succeeded, the daemon started a container, executed the checkout in it
  -- and then the command of every step, in order and in a shell of that container, each with the
  -- exit code 0, or was asked to where the step may fail; and the result has a record of every
  -- step, in order, with the exit code 0 unless the step may fail.
  pub succeeded_job_passed :
      (lease : LeaseClaim) (s : Session Client) (p : Pipeline) (r : ExecutionResult) (t : Text)
      (a : JobAttempt) (e : ℕ)
      → Reach s.client.world
      → lease.lease_token ≡ some t
      → parse_pipeline lease.pipeline_yaml ≡ some p
      → (ran lease p s).0 ≡ returned r
      → HoldsLease (found (ran lease p s).1.client) lease.attempt_id t a e
      → net.delivery (ran lease p s).1.client.calls ≢ not_sent
      → job_status_of (get (execute lease s).1.client.world.jobs a.job_id)
        ≡ some JobStatus.succeeded
      → Carried p lease.repo_url lease.commit_sha lease.attempt_id s.daemon
        × AllPass p.steps r.step_results
  succeeded_job_passed lease s p r t a e reach token parsed result h sent done =
      let settled = worker_delivers_verdict lease s p r t a e reach token parsed result h sent in
      let zero_code = only_zero (attempt_report r) (sym settled.job_settled ∙ done) in
      let writes = on_log lease.attempt_id lease.lease_token in
      (
        success-Carried writes p lease.repo_url lease.commit_sha lease.attempt_id (fresh s) r result
            zero_code,
        success_means_passed writes p lease.repo_url lease.commit_sha lease.attempt_id (fresh s) r
            result zero_code,
      )
    where
      only_zero :
          (v : Report)
          → some (job_verdict config.max_job_attempts a.attempt_number v) ≡ some JobStatus.succeeded
          → is_zero v.exit_code ≡ true
      only_zero v same = ground arith
