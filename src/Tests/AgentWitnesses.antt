-- ===== src/Tests/AgentWitnesses.antt =====
-- The theorems on the worker, its executor and the streams at concrete inputs.
use ci_system.Prelude.{
  ℕ, Bool, Text, text_eq, ◌≤◌, ◌*◌, ◌≡◌, ◌≢◌, refl, true, false, codes, some, [], ◌∷◌, ◌++◌, arith,
}
use ci_system.Prelude.Int.{ℤ, pos}
use ci_system.Config.{second}
use ci_system.Runtime.{config}
use ci_system.Api.Streams.{stream_logs}
use ci_system.Agent.Shell.{quote, all_safe, is_safe, escape_quotes}
use ci_system.Agent.Executor.{
  ExecutionResult, Outcome, returned, unfinished, Session, exec, watch, inspect, drain, next_item,
  log_bytes,
}
use ci_system.Agent.Steps.{run_in_container, checkout_cmd, install_git}
use ci_system.Agent.Network.{found, serve_all}
use ci_system.Agent.Client.{register, join}
use ci_system.Execution.Returns.{run_pipeline_ends}
use ci_system.Execution.Containers.{no_container_left}
use ci_system.Execution.Evidence.{Carried}
use ci_system.Execution.Explanation.{Decided, AllPass, result_explained}
use ci_system.DelayedEntry.{show_int}
use ci_system.Execution.Quoting.{read_word, unquoted, checkout_cmd_lem}
use ci_system.Execution.Silence.{silent_step_permanent}
use ci_system.Reporting.Acceptance.{HoldsLease}
use ci_system.Working.Delivering.{succeeded_job_passed}
use ci_system.Working.Registering.{Succeeds, registration-Succeeds}
use ci_system.Working.Streaming.{Streamed}
use ci_system.Watching.{appends, repeat, stream_logs-shows}
use ci_system.Tests.Machine.{machine, strokes}
use ci_system.Tests.Scenario.{at_claim, at_claim-Reach, claimed_attempt, claimed_stored}
use ci_system.Tests.Daemon.{
  test_daemon, silent_daemon, test_daemon-IsDependable, test_network, slow_network,
}
use ci_system.Tests.AgentRuns.{
  a_step, a_pipeline, a_lease, keep, at_rest, ran_alone, passed_alone, a_session, worker_ran,
  written_attempt, worker_result, written, written_readings, claimed_parses, report_settles,
}

run_pipeline_ends_example : (ran_alone (codes "pytest -q")).0 ≢ unfinished
run_pipeline_ends_example =
    run_pipeline_ends ⦃dk = test_daemon⦄ keep (a_pipeline (codes "pytest -q")) (codes "repo")
      (codes "c0ffee") (codes "") at_rest

no_container_left_example :
    test_daemon.exists (ran_alone (codes "pytest -q")).1.daemon (codes "c1") ≡ false
no_container_left_example =
    no_container_left ⦃dk = test_daemon⦄ keep (a_pipeline (codes "pytest -q")) (codes "repo")
      (codes "c0ffee") (codes "") at_rest (codes "c1") test_daemon-IsDependable refl (codes "c1")

result_explained_example : Decided (a_step (codes "false") ∷ []) (ran_alone (codes "false")).0
result_explained_example =
    result_explained ⦃dk = test_daemon⦄ keep (a_pipeline (codes "false")) (codes "repo")
      (codes "c0ffee") (codes "") at_rest

-- A session that ends its checkout and hears nothing more.
abbrev at_checkout : Session ⦃dk = silent_daemon⦄ Text
at_checkout = record { daemon = codes "c1" ∷ []; readings = 1; client = [] }

abbrev checked_out : Outcome (Bool × ℤ) × Session ⦃dk = silent_daemon⦄ Text
checked_out =
    exec ⦃dk = silent_daemon⦄ keep (codes "c1") (checkout_cmd (codes "repo") (codes "c0ffee"))
      (codes "checkout") (60 * second) at_checkout

checkout_passes : checked_out ≡ (returned (true, pos 0), checked_out.1)
unfolding exec watch inspect drain next_item log_bytes checkout_cmd quote all_safe is_safe
    escape_quotes text_eq
checkout_passes = refl

checkout_readings : checked_out.1.readings ≡ 3
unfolding exec watch inspect drain next_item log_bytes checkout_cmd quote all_safe is_safe
    escape_quotes text_eq
checkout_readings = refl

checkout_cmd_lem_example :
    (from_url from_commit : Text) × (checkout_cmd (codes "a'b; $x") (codes "c0ffee")
      ≡ install_git
        ++ (codes "git clone --depth "
            ++ (show_int (pos config.git_clone_depth) ++ (codes " -- " ++ from_url))))
    × (read_word unquoted from_url
        ≡ some (
          codes "a'b; $x",
          codes " /workspace/repo && cd /workspace/repo && git checkout " ++ from_commit,
        ))
    × (read_word unquoted from_commit ≡ some (codes "c0ffee", []))
checkout_cmd_lem_example = checkout_cmd_lem (codes "a'b; $x") (codes "c0ffee")

silent_step_permanent_example :
    (r : ExecutionResult) × ((run_in_container ⦃dk = silent_daemon⦄ keep
        (codes "c1")
        (a_pipeline (codes "sleep 99"))
        (codes "repo")
        (codes "c0ffee")
        (60 * second)
        at_checkout).0
      ≡ returned r)
    × (r.is_permanent_failure ≡ true)
    × (r.exit_code ≡ pos 124)
    × (r.failed_step ≡ some (codes "test"))
silent_step_permanent_example =
    silent_step_permanent ⦃dk = silent_daemon⦄ keep (codes "c1") (60 * second)
      (a_pipeline (codes "sleep 99")) (codes "repo") (codes "c0ffee") (a_step (codes "sleep 99")) []
      at_checkout checked_out.1 (pos 0) checkout_passes refl hears_nothing (λ c cmd d. (_, refl))
      (λ i d. (_, refl)) (rw checkout_readings (omega arith)) refl
  where
    hears_nothing : (n : ℕ) → checked_out.1.readings ≤ n → silent_daemon.arrives n ≡ false
    hears_nothing n le = let three : 3 ≤ n = rw checkout_readings at le in ground arith

written_Holds :
    HoldsLease
      (found ⦃net = test_network⦄ worker_ran.1.client)
      (strokes 5)
      (strokes 7)
      written_attempt
      (68 * second)
written_Holds = record {
  stored = written;
  token = refl;
  active = refl;
  expiry = refl;
  in_time = rw written_readings (omega arith);
}

succeeded_job_passed_example :
    Carried ⦃dk = test_daemon⦄
      (a_pipeline (codes "pytest -q"))
      (codes "repo")
      (codes "c0ffee")
      (strokes 5)
      []
    × AllPass (a_step (codes "pytest -q") ∷ []) passed_alone.step_results
succeeded_job_passed_example =
    succeeded_job_passed ⦃net = test_network⦄ ⦃dk = test_daemon⦄ (a_lease (codes "yaml")) a_session
      (a_pipeline (codes "pytest -q")) passed_alone (strokes 7) written_attempt (68 * second)
      at_claim-Reach refl claimed_parses worker_result written_Holds (λ e. cc) report_settles

registration-Succeeds_example :
    Succeeds ⦃net = slow_network⦄
      (codes "w")
      (register ⦃net = slow_network⦄ 2 (codes "w") a_session.client)
registration-Succeeds_example =
    registration-Succeeds ⦃net = slow_network⦄ 1 (codes "w") a_session.client (λ m le. refl) refl

claimed_Streamed : Streamed at_claim (strokes 5) (strokes 7) []
claimed_Streamed = record {
  row = claimed_attempt;
  stored = claimed_stored;
  token = refl;
  active = refl;
  written = refl;
}

stream_logs-shows_example :
    let w₁ = serve_all (appends (strokes 5) (strokes 7) (codes "a" ∷ [])) at_claim in
    let w₂ = serve_all (appends (strokes 5) (strokes 7) (codes "b" ∷ codes "c" ∷ [])) w₁ in
    Streamed w₂ (strokes 5) (strokes 7) (codes "abc")
    × (join (stream_logs (strokes 5) at_claim w₁ (repeat 3 w₂)).sent ≡ codes "bc")
stream_logs-shows_example =
    stream_logs-shows (strokes 5) (strokes 7) [] (codes "a" ∷ []) (codes "b" ∷ codes "c" ∷ [])
      at_claim 3 claimed_Streamed (omega arith)
