-- ===== src/Ai/Analyzer.antt =====
-- backend/app/ai/analyzer.py: the provider, the request, the validation of the answer and the row
-- that records it.
use ci_system.Prelude.{
  ℕ, zero, suc, Bool, ◌||◌, ◌&&◌, Text, codes, text_eq, Option, none, some, List, [], ◌∷◌, ◌++◌,
  leb, ◌==◌, if◌then◌else◌,
}
use mathlib.Core.List.{reverse}
use ci_system.Prelude.Lists.{take, drop}
use ci_system.Prelude.Int.{ℤ, pos, negsuc}
use ci_system.Models.{Project, Job, JobAttempt, AiAnalysis, AnalysisStatus}
use ci_system.Runtime.{Runtime, config, get, put}
use ci_system.World.{World, now}
use ci_system.Ai.Schemas.{
  FailureAnalysisRequest, FailureAnalysisResult, Decoded, not_json, not_an_object, object,
  validate_result,
}
use ci_system.Ai.Mock.{is_prefix, mock_analysis}
use ci_system.Ai.Anthropic.{join_lines, build_prompt}
use ci_system.Ai.Context.{truncate_log}

-- The classes behind `LLMProvider`.
pub data Provider : Type 0 where
  mock anthropic : Provider

abbrev pub provider_name : Provider → Text
provider_name mock = codes "mock"
provider_name anthropic = codes "anthropic"

-- What a call gives: a value, or the message of an `LLMProviderError`.
pub data Provided (A : Type 0) : Type 0 where
  provided : A → Provided A
  provider_error : Text → Provided A

-- `str.isspace`
abbrev is_space : ℕ → Bool
is_space c =
    (leb 9 c && leb c 13)
    || (leb 28 c && leb c 32)
    || c == 133
    || c == 160
    || c == 5760
    || (leb 8192 c && leb c 8202)
    || c == 8232
    || c == 8233
    || c == 8239
    || c == 8287
    || c == 12288

unfoldable pub drop_while : (ℕ → Bool) → Text → Text
drop_while p [] = []
drop_while p (c ∷ cs) = if p c then drop_while p cs else c ∷ cs

-- `s.strip(…)` of the characters that satisfy the test
unfoldable pub strip : (ℕ → Bool) → Text → Text
unfolding drop_while
strip p s = reverse (drop_while p (reverse (drop_while p s)))

-- The first lines of `_parse_and_validate`: a fence and its language are taken off.
unfoldable pub clean_response : Text → Text
unfolding strip
clean_response raw_response =
    let cleaned = strip is_space raw_response in
    let inner = strip (λ c. c == b'`') cleaned in
    if is_prefix (codes "```") cleaned
    then (if is_prefix (codes "json") inner then drop 4 inner else inner)
    else cleaned

-- A parsed response: valid, rejected with a `JSONDecodeError` or `ValidationError`, or the
-- `TypeError` of `**data` when the value is no object.
pub data Verdict : Type 0 where
  valid : FailureAnalysisResult → Verdict
  rejected type_error : Verdict

unfoldable pub judge : Decoded → Verdict
unfolding validate_result
judge not_json = rejected
judge not_an_object = type_error
judge (object raw) = elim (validate_result raw) [ none ↦ rejected | some r ↦ valid r ]

-- `attempt.exit_code or -1`
abbrev pub or_minus_one : Option ℤ → ℤ
or_minus_one none = negsuc 0
or_minus_one (some (pos zero)) = negsuc 0
or_minus_one (some (pos (suc n))) = pos (suc n)
or_minus_one (some (negsuc n)) = negsuc n

abbrev pub pending_analysis : AiAnalysis
pending_analysis = record {
  status = AnalysisStatus.pending;
  provider = none;
  model = none;
  failure_category = none;
  root_cause = none;
  explanation = none;
  suggested_fix = none;
  confidence = none;
  raw_response = none;
  error_message = none;
  completed_at = none;
}

-- `_mark_unavailable`
abbrev pub mark_unavailable : AiAnalysis → Text → AiAnalysis
mark_unavailable analysis message = record analysis {
  status = AnalysisStatus.unavailable;
  error_message = some message;
}

-- What `analyze_attempt` does: it returns the row, or an exception leaves it.
pub data Analyzed : Type 0 where
  returned : AiAnalysis → Analyzed
  raised : Analyzed

module _ ⦃rt : Runtime⦄ where
  -- Of the messages, the part that Python adds by `repr` or by an exception is left out.
  unfoldable pub get_provider : Provided Provider
  get_provider =
      if text_eq config.ai_provider (codes "anthropic")
      then (if text_eq config.ai_api_key []
          then provider_error (codes "CI_AI_API_KEY is not configured")
          else provided anthropic)
      else if text_eq config.ai_provider (codes "mock")
      then provided mock
      else provider_error (codes "unknown AI provider configured: " ++ config.ai_provider)

  unfoldable pub answer_text : Option (List Text) → Provided Text
  unfolding join_lines
  answer_text none = provider_error (codes "provider call failed")
  answer_text (some []) = provider_error (codes "provider returned no text content")
  answer_text (some (block ∷ blocks)) = provided (join_lines (block ∷ blocks))

  -- `provider.analyze(request)`
  unfoldable pub call_provider : Provider → FailureAnalysisRequest → Provided Text
  unfolding answer_text build_prompt mock_analysis
  call_provider mock request = provided (rt.dump_json (mock_analysis request))
  call_provider anthropic request = answer_text (rt.create_message (build_prompt request))

  unfoldable pub parse_and_validate : Text → Verdict
  unfolding clean_response judge
  parse_and_validate raw_response = judge (rt.load_json (clean_response raw_response))

  unfoldable pub make_request : Project → Job → JobAttempt → FailureAnalysisRequest
  unfolding truncate_log
  make_request project job attempt = record {
    project_name = project.name;
    commit_sha = job.commit_sha;
    failed_step = attempt.failed_step;
    exit_code = or_minus_one attempt.exit_code;
    log_excerpt = truncate_log attempt.logs;
    source_context = [];
  }

  -- The commit of the row.
  abbrev save_analysis : Text → AiAnalysis → World → Analyzed × World
  save_analysis attempt_id analysis w =
      (returned analysis, record w { analyses = put w.analyses attempt_id analysis })

  -- What is recorded for a response. An exception rolls the pending row back.
  unfoldable pub record_verdict : Text → AiAnalysis → Text → Verdict → World → Analyzed × World
  record_verdict attempt_id analysis raw_response type_error w = (raised, w)
  record_verdict attempt_id analysis raw_response rejected w =
      save_analysis attempt_id
        (record analysis {
          status = AnalysisStatus.invalid;
          raw_response = some (take 4000 raw_response);
          error_message = some (codes "response failed schema validation");
        })
        w
  record_verdict attempt_id analysis raw_response (valid parsed) w =
      let (t, w') = now w in
      save_analysis attempt_id
        (record analysis {
          status = AnalysisStatus.completed;
          failure_category = some parsed.failure_category;
          root_cause = some parsed.root_cause;
          explanation = some parsed.explanation;
          suggested_fix = some parsed.suggested_fix;
          confidence = some parsed.confidence;
          raw_response = some (take 4000 raw_response);
          completed_at = some t;
        })
        w'

  unfoldable pub record_answer : Text → AiAnalysis → Provided Text → World → Analyzed × World
  unfolding record_verdict parse_and_validate
  record_answer attempt_id analysis (provider_error message) w =
      save_analysis attempt_id (mark_unavailable analysis message) w
  record_answer attempt_id analysis (provided raw_response) w =
      record_verdict attempt_id analysis raw_response (parse_and_validate raw_response) w

  unfoldable pub ask_provider :
      Text → FailureAnalysisRequest → Provided Provider → World → Analyzed × World
  unfolding record_answer call_provider
  ask_provider attempt_id request (provider_error message) w =
      save_analysis attempt_id (mark_unavailable pending_analysis message) w
  ask_provider attempt_id request (provided provider) w =
      record_answer attempt_id
        (record pending_analysis {
          provider = some (provider_name provider);
          model = some config.ai_model;
        })
        (call_provider provider request) w

  -- Both callers leave `repo_checkout_path` out, so there is no source context. The foreign keys
  -- rule a missing job or project out.
  unfoldable pub analyze_attempt : Text → JobAttempt → World → Analyzed × World
  unfolding ask_provider get_provider make_request
  analyze_attempt attempt_id attempt w = elim (get w.analyses attempt_id) [
    | some existing ↦ (returned existing, w)
    | none ↦ elim (get w.jobs attempt.job_id) [
      | none ↦ (raised, w)
      | some job ↦ elim (get w.projects job.project_id) [
        | none ↦ (raised, w)
        | some project ↦ ask_provider attempt_id (make_request project job attempt) get_provider w
      ]
    ]
  ]
