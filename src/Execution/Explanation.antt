-- ===== src/Execution/Explanation.antt =====
-- The results of the steps, and the result of `run_pipeline` that they lead to.
use ci_system.Prelude.{
  ◌≡◌, ◌⊎◌, refl, ap, sym, inl, inr, Bool, true, false, ◌||◌, Text, none, some, List, [], ◌∷◌, ◌++◌,
  arith, Bool-cases,
}
use ci_system.Prelude.Int.{ℤ, pos}
use ci_system.Lease.{is_zero}
use ci_system.Pipeline.{Pipeline, PipelineStep}
use ci_system.Runtime.{Runtime}
use ci_system.Agent.Docker.{Docker}
use ci_system.Agent.Executor.{
  StepResult, ExecutionResult, Outcome, returned, raised, unfinished, Session,
}
use ci_system.Agent.Steps.{run_pipeline}
use ci_system.Execution.Verdicts.{explain, Matches}
use ci_system.Execution.Decision.{NotStarted, Explains, run_pipeline-Explains}

-- Every step has a result, in order, and each result is a success or its step may fail.
abbrev pub AllPass : List PipelineStep → List StepResult → Type 0
AllPass [] [] = Unit
AllPass [] (result ∷ ran) = ⊥
AllPass (step ∷ steps) [] = ⊥
AllPass (step ∷ steps) (result ∷ ran) =
    (result.name ≡ step.name)
    × ((is_zero result.exit_code || step.allow_failure) ≡ true)
    × AllPass steps ran

-- Every step has passed or may fail.
pub record Passed (steps : List PipelineStep) (ran : List StepResult) (r : ExecutionResult)
    : Type 0 where
  pub all_pass : AllPass steps ran
  pub code : r.exit_code ≡ pos 0
  pub no_failed_step : r.failed_step ≡ none
  pub no_verdict : r.is_permanent_failure ≡ false

-- The steps before one that may not fail have passed or may fail, and the last result is that of a
-- failure of this step, which is permanent.
pub record Failed (steps : List PipelineStep) (ran : List StepResult) (r : ExecutionResult)
    : Type 0 where
  pub step : PipelineStep
  pub last : StepResult
  pub before : List PipelineStep
  pub after : List PipelineStep
  pub earlier : List StepResult
  pub split : steps ≡ before ++ (step ∷ after)
  pub results : ran ≡ earlier ++ (last ∷ [])
  pub passes : AllPass before earlier
  pub same_name : last.name ≡ step.name
  pub fails : is_zero last.exit_code ≡ false
  pub must_pass : step.allow_failure ≡ false
  pub code : r.exit_code ≡ last.exit_code
  pub failed_step : r.failed_step ≡ some step.name
  pub permanent : r.is_permanent_failure ≡ true

-- The deadline passed before a step, after others that passed or may fail; the server may try the
-- job again.
pub record OutOfTime (steps : List PipelineStep) (ran : List StepResult) (r : ExecutionResult)
    : Type 0 where
  pub step : PipelineStep
  pub before : List PipelineStep
  pub after : List PipelineStep
  pub split : steps ≡ before ++ (step ∷ after)
  pub passes : AllPass before ran
  pub code : r.exit_code ≡ pos 124
  pub failed_step : r.failed_step ≡ some step.name
  pub retryable : r.is_permanent_failure ≡ false

abbrev pub Sorted : List PipelineStep → List StepResult → ExecutionResult → Type 0
Sorted steps ran r = Passed steps ran r ⊎ Failed steps ran r ⊎ OutOfTime steps ran r

abbrev pub Decided : List PipelineStep → Outcome ExecutionResult → Type 0
Decided steps (returned r) = NotStarted r ⊎ Sorted steps r.step_results r
Decided steps raised = Unit
Decided steps unfinished = Unit

-- A step in front of the others that has passed or may fail.
after_one :
    (step : PipelineStep) (x : StepResult) (steps : List PipelineStep) (ran : List StepResult)
    (r : ExecutionResult)
    → x.name ≡ step.name
    → (is_zero x.exit_code || step.allow_failure) ≡ true
    → Sorted steps ran r
    → Sorted (step ∷ steps) (x ∷ ran) r
after_one step x steps ran r name pass (inl h) = inl (record {
  all_pass = (name, pass, h.all_pass);
  code = h.code;
  no_failed_step = h.no_failed_step;
  no_verdict = h.no_verdict;
})
after_one step x steps ran r name pass (inr (inl h)) = inr (
    inl (record {
      step = h.step;
      last = h.last;
      before = step ∷ h.before;
      after = h.after;
      earlier = x ∷ h.earlier;
      split = ap (λ (l : List PipelineStep). step ∷ l) h.split;
      results = ap (λ (l : List StepResult). x ∷ l) h.results;
      passes = (name, pass, h.passes);
      same_name = h.same_name;
      fails = h.fails;
      must_pass = h.must_pass;
      code = h.code;
      failed_step = h.failed_step;
      permanent = h.permanent;
    }))
after_one step x steps ran r name pass (inr (inr h)) = inr (
    inr (record {
      step = h.step;
      before = step ∷ h.before;
      after = h.after;
      split = ap (λ (l : List PipelineStep). step ∷ l) h.split;
      passes = (name, pass, h.passes);
      code = h.code;
      failed_step = h.failed_step;
      retryable = h.retryable;
    }))

last_of {ℓ} : {A : Type ℓ} {b : Bool} {xs : List A} → (b ≡ true) ⊎ (xs ≡ []) → b ≡ false → xs ≡ []
last_of (inl h) e = cc
last_of (inr h) e = h

explain-Sorted :
    (steps : List PipelineStep) (ran all : List StepResult)
    → Matches steps ran
    → Sorted steps ran (explain steps ran all)
unfolding explain
explain-Sorted [] [] all fits =
    inl (record { all_pass = tt; code = refl; no_failed_step = refl; no_verdict = refl })
explain-Sorted [] (x ∷ ran) all fits = absurd fits
explain-Sorted (step ∷ steps) [] all fits = inr (
    inr (record {
      step = step;
      before = [];
      after = steps;
      split = refl;
      passes = tt;
      code = refl;
      failed_step = refl;
      retryable = refl;
    }))
explain-Sorted (step ∷ steps) (x ∷ ran) all (name, ends, fits) =
    elim (Bool-cases (is_zero x.exit_code || step.allow_failure)) [
      | inl pass ↦
          rw (explain, pass)
            (after_one step x steps ran _ name pass (explain-Sorted steps ran all fits))
      | inr fails ↦
          rw (explain, fails)
            (inr (
              inl (record {
                step = step;
                last = x;
                before = [];
                after = steps;
                earlier = [];
                split = refl;
                results = ap (λ (l : List StepResult). x ∷ l) (last_of ends fails);
                passes = tt;
                same_name = name;
                fails = ground arith;
                must_pass = ground arith;
                code = refl;
                failed_step = refl;
                permanent = refl;
              })))
    ]

sort :
    (steps : List PipelineStep) (o : Outcome ExecutionResult) → Explains steps o → Decided steps o
sort steps (returned r) (inl early) = inl early
sort steps (returned r) (inr (fits, rule)) =
    let sorted = explain-Sorted steps r.step_results r.step_results fits in
    inr (rw (sym rule) at sorted)
sort steps raised h = tt
sort steps unfinished h = tt

module _ ⦃rt : Runtime⦄ ⦃dk : Docker⦄ {C : Type 0} (on_log : Text → C → C) where
  -- What an execution returns is one of four. Either no step ran: then it has no results of steps,
  -- its exit code is not 0, it is not permanent and it names an error of the infrastructure. Or the recorded results are those of the first
  -- steps, in order: every step has a result that passes or may fail, and the exit code is 0; or
  -- the last recorded step failed and may not, all before it pass or may fail, and its exit code is
  -- returned as a permanent failure of that step; or those recorded pass or may fail, and 124 is
  -- returned for the next step, and is not permanent.
  pub result_explained :
      (p : Pipeline) (repo_url commit_sha attempt_id : Text) (s : Session C)
      → Decided p.steps (run_pipeline on_log p repo_url commit_sha attempt_id s).0
  result_explained p repo_url commit_sha attempt_id s =
      sort p.steps _ (run_pipeline-Explains on_log p repo_url commit_sha attempt_id s)

  -- The results of an execution whose exit code is 0.
  pub success_means_passed :
      (p : Pipeline) (repo_url commit_sha attempt_id : Text) (s : Session C) (r : ExecutionResult)
      → (run_pipeline on_log p repo_url commit_sha attempt_id s).0 ≡ returned r
      → is_zero r.exit_code ≡ true
      → AllPass p.steps r.step_results
  success_means_passed p repo_url commit_sha attempt_id s r e success =
      let decided : Decided p.steps (run_pipeline on_log p repo_url commit_sha attempt_id s).0 =
        result_explained p repo_url commit_sha attempt_id s in
      elim (rw e at decided) [
        | inl early ↦ ground arith
        | inr (inl passed) ↦ passed.all_pass
        | inr (inr (inl failed)) ↦
            let code = failed.code in
            let fails = failed.fails in absurd (nonzero failed.code failed.fails success)
        | inr (inr (inr late)) ↦ absurd (nonzero late.code refl success)
      ]
    where
      nonzero : {a b : ℤ} → a ≡ b → is_zero b ≡ false → is_zero a ≡ true → ⊥
      nonzero e f t = let same = ap is_zero e in ground arith
