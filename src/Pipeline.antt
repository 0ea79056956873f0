-- ===== src/Pipeline.antt =====
-- backend/app/pipeline.py: the pipeline schema and its validation.
pub mod Validity
use ci_system.Prelude.{
  ℕ, zero, suc, ◌^◌, Bool, false, ◌||◌, Text, codes, text_eq, Option, none, some, List, [], ◌∷◌,
  if◌then◌else◌,
}
use ci_system.Prelude.Int.{ℤ, pos, negsuc}

pub record PipelineStep : Type 0 where
  pub name : Text
  pub run : Text
  pub allow_failure : Bool

-- `cpus` is a finite double, counted in units of 2^-1074, of which every double is a multiple.
pub record ResourceLimits : Type 0 where
  pub memory : Text
  pub cpus : ℕ

pub record Pipeline : Type 0 where
  pub image : Text
  pub timeout_seconds : ℕ
  pub resources : ResourceLimits
  pub network : Text
  pub steps : List PipelineStep

-- A step and a mapping as YAML and pydantic's typing of the fields leave them: a field that the
-- text does not give is `none`.
pub record RawStep : Type 0 where
  pub name : Option Text
  pub run : Option Text
  pub allow_failure : Option Bool

pub record RawPipeline : Type 0 where
  pub image : Option Text
  pub timeout_seconds : Option ℤ
  pub memory : Option Text
  pub cpus : Option ℤ
  pub network : Option Text
  pub steps : Option (List RawStep)

-- What `yaml.safe_load` and the typing of the fields give for a text.
pub data Document : Type 0 where
  invalid_yaml not_a_mapping ill_typed : Document
  mapping : RawPipeline → Document

abbrev pub with_default {ℓ} : {A : Type ℓ} → A → Option A → A
with_default d none = d
with_default d (some a) = a

-- `Field(gt=0)`
abbrev positive : ℤ → Option ℕ
positive (pos zero) = none
positive (pos (suc n)) = some (suc n)
positive (negsuc n) = none

infixl 5 ◌>>=◌
abbrev ◌>>=◌ {ℓ κ} : {A : Type ℓ} {B : Type κ} → Option A → (A → Option B) → Option B
none >>= f = none
some a >>= f = f a

unfoldable pub supported_network : Text → Option Text
supported_network v =
    if text_eq v (codes "none") || text_eq v (codes "bridge") then some v else none

unfoldable pub must_have_steps : List PipelineStep → Option (List PipelineStep)
must_have_steps [] = none
must_have_steps (step ∷ rest) = some (step ∷ rest)

unfoldable pub parse_step : RawStep → Option PipelineStep
parse_step raw = do
  name ← raw.name
  run ← raw.run
  some (record { name = name; run = run; allow_failure = with_default false raw.allow_failure })

unfoldable pub parse_steps : List RawStep → Option (List PipelineStep)
unfolding parse_step
parse_steps [] = some []
parse_steps (raw ∷ rest) = do step ← parse_step raw; steps ← parse_steps rest; some (step ∷ steps)

-- `Pipeline(**data)`; a default is not validated, and the defaults are valid.
unfoldable pub validate : RawPipeline → Option Pipeline
unfolding supported_network must_have_steps parse_steps
validate raw = do
  image ← raw.image
  timeout ← positive (with_default (pos 900) raw.timeout_seconds)
  cpus ← positive (with_default (pos (2 ^ 1074)) raw.cpus)
  network ← supported_network (with_default (codes "none") raw.network)
  raw_steps ← raw.steps
  parsed ← parse_steps raw_steps
  steps ← must_have_steps parsed
  some (record {
    image = image;
    timeout_seconds = timeout;
    resources = record { memory = with_default (codes "512m") raw.memory; cpus = cpus };
    network = network;
    steps = steps;
  })

-- none for a `PipelineParseError`
unfoldable pub parse_document : Document → Option Pipeline
unfolding validate
parse_document (mapping raw) = validate raw
parse_document _ = none
