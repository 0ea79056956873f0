-- ===== src/Ai/Schemas.antt =====
-- backend/app/ai/schemas.py: what is sent to a provider and what is required back.
use ci_system.Prelude.{
  ℕ, ◌^◌, Bool, false, ◌&&◌, ◌||◌, Text, codes, text_eq, Option, none, some, List, [], ◌∷◌, leb,
  if◌then◌else◌,
}
use ci_system.Prelude.Lists.{length}
use ci_system.Prelude.Int.{ℤ, pos, negsuc}

pub record SourceSnippet : Type 0 where
  pub path : Text
  pub content : Text
  pub reason : Text

pub record FailureAnalysisRequest : Type 0 where
  pub project_name : Text
  pub commit_sha : Text
  pub failed_step : Option Text
  pub exit_code : ℤ
  pub log_excerpt : Text
  pub source_context : List SourceSnippet

-- A confidence of 1.0; confidences are held in billionths.
abbrev pub full_confidence : ℕ
full_confidence = 10 ^ 9

pub record FailureAnalysisResult : Type 0 where
  pub failure_category : Text
  pub root_cause : Text
  pub explanation : Text
  pub suggested_fix : Text
  pub confidence : ℕ

-- The fields of a JSON object that have the right types; a field that is missing or has another
-- type is `none`.
pub record RawResult : Type 0 where
  pub failure_category : Option Text
  pub root_cause : Option Text
  pub explanation : Option Text
  pub suggested_fix : Option Text
  pub confidence : Option ℤ

-- The fields of a result, all present.
abbrev pub raw_result : FailureAnalysisResult → RawResult
raw_result r = record {
  failure_category = some r.failure_category;
  root_cause = some r.root_cause;
  explanation = some r.explanation;
  suggested_fix = some r.suggested_fix;
  confidence = some (pos r.confidence);
}

-- What `json.loads` gives: a `JSONDecodeError`, a value that is no object, or an object.
pub data Decoded : Type 0 where
  not_json not_an_object : Decoded
  object : RawResult → Decoded

-- `FailureCategoryLiteral`
abbrev pub categories : List Text
categories =
    codes "compile_error"
    ∷ codes "test_failure"
    ∷ codes "dependency_error"
    ∷ codes "timeout"
    ∷ codes "infra_error"
    ∷ codes "configuration_error"
    ∷ codes "flaky_test"
    ∷ codes "unknown"
    ∷ []

unfoldable pub is_one_of : Text → List Text → Bool
is_one_of v [] = false
is_one_of v (name ∷ names) = text_eq v name || is_one_of v names

infixl 5 ◌>>=◌
abbrev pub ◌>>=◌ {ℓ κ} : {A : Type ℓ} {B : Type κ} → Option A → (A → Option B) → Option B
none >>= f = none
some a >>= f = f a

abbrev literal : Text → Option Text
literal v = if is_one_of v categories then some v else none

-- `Field(min_length=1, max_length=…)`
unfoldable pub sized : ℕ → Text → Option Text
sized most v = if leb 1 (length v) && leb (length v) most then some v else none

-- `Field(ge=0.0, le=1.0)`; `clamp_confidence` leaves what passed unchanged.
unfoldable pub unit_interval : ℤ → Option ℕ
unit_interval (pos n) = if leb n full_confidence then some n else none
unit_interval (negsuc n) = none

-- `FailureAnalysisResult(**data)`, none for a `ValidationError`
unfoldable pub validate_result : RawResult → Option FailureAnalysisResult
unfolding is_one_of sized unit_interval
validate_result raw = do
  category ← raw.failure_category
  failure_category ← literal category
  cause ← raw.root_cause
  root_cause ← sized 2000 cause
  reasoning ← raw.explanation
  explanation ← sized 4000 reasoning
  fix ← raw.suggested_fix
  suggested_fix ← sized 2000 fix
  certainty ← raw.confidence
  confidence ← unit_interval certainty
  some (record {
    failure_category = failure_category;
    root_cause = root_cause;
    explanation = explanation;
    suggested_fix = suggested_fix;
    confidence = confidence;
  })
