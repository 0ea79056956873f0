-- ===== src/Tests/Machine.antt =====
-- A runtime to run the program on: lists for the tables, a clock that ticks once a second, numbers
-- in unary for identifiers, and exact scores.
use ci_system.Prelude.{
  ℕ, zero, suc, ◌*◌, ◌≤◌, ◌≡◌, refl, Text, codes, Option, none, some, [], ◌∷◌, ◌++◌, arith, ◌==◌,
  if◌then◌else◌,
}
use ci_system.Config.{second, default_settings}
use ci_system.Pipeline.{Document, mapping, invalid_yaml, RawPipeline}
use ci_system.Ai.Schemas.{
  Decoded, object, not_json, not_an_object, FailureAnalysisResult, raw_result,
}
use ci_system.Runtime.{Runtime}
use ci_system.Runtime.Host.{Host}
use ci_system.Tests.Tables.{list_database}
use ci_system.Tests.Scores.{list_sorted_set}

-- `n` strokes.
abbrev pub strokes : ℕ → Text
strokes zero = []
strokes (suc n) = b'i' ∷ strokes n

pub strokes_injective : (m n : ℕ) → strokes m ≡ strokes n → m ≡ n
strokes_injective zero zero e = refl
strokes_injective zero (suc n) e = cc
strokes_injective (suc m) zero e = cc
strokes_injective (suc m) (suc n) e = ground (arith, strokes_injective m n)

pub clock_mono : (m n : ℕ) → m ≤ n → m * second ≤ n * second
clock_mono m n h = omega arith

abbrev pub test_host : Host
test_host = record {
  clock = λ n. n * second;
  uuid = strokes;
  token = strokes;
  double = λ a. a;
  uuid_injective = strokes_injective;
  token_injective = strokes_injective;
  double_mono = λ a b h. h;
  double_exact = λ m e h b. refl;
  double_exact_neg = λ m e h b. refl;
}

-- A dictionary of a result in place of JSON: every character of a text behind a 1, its end a 0.
abbrev write_text : Text → Text → Text
write_text [] rest = 0 ∷ rest
write_text (c ∷ cs) rest = 1 ∷ c ∷ write_text cs rest

abbrev prepend : ℕ → Option (Text × Text) → Option (Text × Text)
prepend c none = none
prepend c (some (cs, rest)) = some (c ∷ cs, rest)

abbrev read_text : Text → Option (Text × Text)
read_text [] = none
read_text (zero ∷ rest) = some ([], rest)
read_text (suc n ∷ []) = none
read_text (suc n ∷ c ∷ rest) = prepend c (read_text rest)

read-write : (s rest : Text) → read_text (write_text s rest) ≡ some (s, rest)
read-write [] rest = refl
read-write (c ∷ cs) rest = rw (read-write cs rest)

abbrev pub dump_result : FailureAnalysisResult → Text
dump_result r =
    b'{'
    ∷ (write_text r.failure_category (
          write_text r.root_cause
            (write_text r.explanation (write_text r.suggested_fix (r.confidence ∷ []))))
        ++ (b'}' ∷ []))

infixl 5 ◌>>=◌
abbrev ◌>>=◌ {ℓ κ} : {A : Type ℓ} {B : Type κ} → Option A → (A → Option B) → Option B
none >>= f = none
some a >>= f = f a

abbrev last_field : Text → Option ℕ
last_field [] = none
last_field (c ∷ cs) = some c

abbrev read_result : Text → Option FailureAnalysisResult
read_result s = do
  (category, s₁) ← read_text s
  (cause, s₂) ← read_text s₁
  (explanation, s₃) ← read_text s₂
  (fix, s₄) ← read_text s₃
  confidence ← last_field s₄
  some (record {
    failure_category = category;
    root_cause = cause;
    explanation = explanation;
    suggested_fix = fix;
    confidence = confidence;
  })

abbrev decoded : Option FailureAnalysisResult → Decoded
decoded none = not_json
decoded (some r) = object (raw_result r)

-- A text in square brackets is a value that is no object.
abbrev pub load_value : Text → Decoded
load_value [] = not_json
load_value (c ∷ cs) =
    if c == b'[' then not_an_object else if c == b'{' then decoded (read_result cs) else not_json

write_text-append : (s rest end : Text) → write_text s rest ++ end ≡ write_text s (rest ++ end)
write_text-append [] rest end = refl
write_text-append (c ∷ cs) rest end = rw (write_text-append cs rest end)

pub load-dump_result :
    (r : FailureAnalysisResult) → load_value (dump_result r) ≡ object (raw_result r)
load-dump_result r = simp (write_text-append, read-write)

pub dump_result_braces :
    (r : FailureAnalysisResult) → (s : Text) × (dump_result r ≡ b'{' ∷ (s ++ (b'}' ∷ [])))
dump_result_braces r = (_, refl)

-- The pipeline of the tests; a text that begins with a full stop is no YAML.
abbrev pub test_pipeline : RawPipeline
test_pipeline = record {
  image = some (codes "python:3.11-slim");
  timeout_seconds = none;
  memory = none;
  cpus = none;
  network = none;
  steps = some (
      record { name = some (codes "test"); run = some (codes "pytest -q"); allow_failure = none }
      ∷ []);
}

abbrev load_document : Text → Document
load_document [] = mapping test_pipeline
load_document (c ∷ cs) = if c == b'.' then invalid_yaml else mapping test_pipeline

instance abbrev pub machine : Runtime
machine = record {
  database = list_database;
  sorted_set = list_sorted_set;
  host = test_host;
  settings = default_settings;
  load_yaml = load_document;
  match_paths = λ s. [];
  load_json = load_value;
  dump_json = dump_result;
  create_message = λ prompt. some (codes "[1, 2]" ∷ []);
  load-dump = load-dump_result;
  dump_braces = dump_result_braces;
}
