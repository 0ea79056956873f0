-- ===== src/Ai/Rows.antt =====
-- The rows that an analysis of backend/app/ai/analyzer.py leaves.
use ci_system.Prelude.{
  ◌↔◌, ◌≡◌, refl, inl, inr, Text, text_eq_refl, none, some, arith, Option-cases,
}
use mathlib.Core.Path.{subst}
use ci_system.Models.{Job, JobAttempt, AiAnalysis, Project}
use ci_system.Runtime.{Runtime, config, get, put, get-put}
use ci_system.World.{World}
use ci_system.Ai.Schemas.{
  validate_result, Decoded, object, not_json, FailureAnalysisRequest, not_an_object,
}
use ci_system.Ai.Analyzer.{
  Provider, Provided, provided, provider_error, provider_name, Verdict, valid, rejected, type_error,
  parse_and_validate, judge, pending_analysis, Analyzed, returned, raised, record_verdict,
  record_answer, ask_provider, get_provider, call_provider, make_request, clean_response,
  analyze_attempt,
}

module _ ⦃rt : Runtime⦄ where
  -- A row that was returned is the stored one; an exception leaves the rows alone.
  abbrev pub Recorded : Text → World → Analyzed × World → Type 0
  Recorded k w (returned r, w') = get w'.analyses k ≡ some r
  Recorded k w (raised, w') = w' ≡ w

  put_own : (k : Text) (w : World) (r : AiAnalysis) → get (put w.analyses k r) k ≡ some r
  put_own k w r = ground (arith, get-put w.analyses k k r, text_eq_refl k)

  record_verdict-Recorded :
      (k raw : Text) (row : AiAnalysis) (v : Verdict) (w : World)
      → Recorded k w (record_verdict k row raw v w)
  unfolding record_verdict
  record_verdict-Recorded k raw row (valid x) w = put_own k w _
  record_verdict-Recorded k raw row rejected w = put_own k w _
  record_verdict-Recorded k raw row type_error w = refl

  record_answer-Recorded :
      (k : Text) (row : AiAnalysis) (p : Provided Text) (w : World)
      → Recorded k w (record_answer k row p w)
  unfolding record_answer
  record_answer-Recorded k row (provided raw) w =
      record_verdict-Recorded k raw row (parse_and_validate raw) w
  record_answer-Recorded k row (provider_error m) w = put_own k w _

  ask_provider-Recorded :
      (k : Text) (q : FailureAnalysisRequest) (p : Provided Provider) (w : World)
      → Recorded k w (ask_provider k q p w)
  unfolding ask_provider
  ask_provider-Recorded k q (provided p) w =
      record_answer-Recorded k
        (record pending_analysis {
          provider = some (provider_name p);
          model = some config.ai_model;
        })
        (call_provider p q) w
  ask_provider-Recorded k q (provider_error m) w = put_own k w _

  -- The row that an analysis returns is stored under the attempt, and an analysis that ends in an
  -- exception leaves the world as it was.
  pub analysis-Recorded :
      (k : Text) (a : JobAttempt) (w : World) → Recorded k w (analyze_attempt k a w)
  unfolding analyze_attempt
  analysis-Recorded k a w = elim (Option-cases (get w.analyses k)) [
    | inr (r, e) ↦ rw (analyze_attempt, e) e
    | inl e ↦ elim (Option-cases (get w.jobs a.job_id)) [
      | inl f ↦ rw (analyze_attempt, e) (rw f refl)
      | inr (j, f) ↦ elim (Option-cases (get w.projects j.project_id)) [
        | inl g ↦ rw (analyze_attempt, e) (rw f (rw g refl))
        | inr (p, g) ↦
            rw (analyze_attempt, e) (rw f (rw g (ask_provider-Recorded k _ get_provider w)))
      ]
    ]
  ]

  -- Once an analysis has returned a row, every further analysis of the attempt returns that row and
  -- changes nothing, whatever its status: a second request never asks the provider again.
  pub analysis_runs_once :
      (k : Text) (a b : JobAttempt) (w w' : World) (r : AiAnalysis)
      → analyze_attempt k a w ≡ (returned r, w')
      → analyze_attempt k b w' ≡ (returned r, w')
  unfolding analyze_attempt
  analysis_runs_once k a b w w' r e =
      let stored : get w'.analyses k ≡ some r = subst (Recorded k w) e (analysis-Recorded k a w) in
      rw (analyze_attempt, stored) refl

  -- When the provider answers, the first analysis of an attempt ends in an exception exactly when
  -- the answer is JSON that is no object.
  pub analysis_raises_iff :
      (k raw : Text) (a : JobAttempt) (j : Job) (p : Project) (q : Provider) (w : World)
      → get w.analyses k ≡ none
      → get w.jobs a.job_id ≡ some j
      → get w.projects j.project_id ≡ some p
      → get_provider ≡ provided q
      → call_provider q (make_request p j a) ≡ provided raw
      → ((analyze_attempt k a w).0 ≡ raised) ↔ (rt.load_json (clean_response raw) ≡ not_an_object)
  unfolding analyze_attempt ask_provider record_answer record_verdict parse_and_validate judge
  analysis_raises_iff k raw a j p q w e f g configured answered =
      rw (analyze_attempt, e)
        (rw f (
          rw g (rw configured (rw answered (verdict (rt.load_json (clean_response raw)) asked w)))))
    where
      asked : AiAnalysis
      asked = record pending_analysis {
        provider = some (provider_name q);
        model = some config.ai_model;
      }

      verdict :
          (d : Decoded) (row : AiAnalysis) (w : World)
          → ((record_verdict k row raw (judge d) w).0 ≡ raised) ↔ (d ≡ not_an_object)
      verdict not_json row w = (λ h. cc, λ h. cc)
      verdict not_an_object row w = (λ h. refl, λ h. refl)
      verdict (object fields) row w = elim (Option-cases (validate_result fields)) [
        | inl x ↦ rw (judge, x) (λ h. cc, λ h. cc)
        | inr (r, x) ↦ rw (judge, x) (λ h. cc, λ h. cc)
      ]
