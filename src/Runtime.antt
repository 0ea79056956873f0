-- ===== src/Runtime.antt =====
-- What the program uses and does not implement: one record of interfaces, which every definition
-- and theorem takes as an instance argument, with short names for the operations and their laws.
pub mod Database
pub mod SortedSet
pub mod Host
use ci_system.Prelude.{
  ℕ, ◌≡◌, Bool, Text, text_eq, Option, some, List, [], ◌∷◌, ◌++◌, if◌then◌else◌,
}
use ci_system.Config.{Settings}
use ci_system.Ai.Schemas.{FailureAnalysisResult, Decoded, object, raw_result}
use ci_system.Pipeline.{Document, Pipeline, parse_document}

pub record Runtime : Type 1 where
  pub database : Database.Database
  pub sorted_set : SortedSet.SortedSet
  pub host : Host.Host
  pub settings : Settings
  -- `yaml.safe_load` and pydantic's typing of the fields
  pub load_yaml : Text → Document
  -- the first groups of the matches of each of `_PATH_PATTERNS`, in order
  pub match_paths : Text → List (List Text)
  -- `json.loads` and pydantic's typing of the fields
  pub load_json : Text → Decoded
  -- `json.dumps` of the dictionary with these fields
  pub dump_json : FailureAnalysisResult → Text
  -- the texts of the answer of `messages.create`, or an exception
  pub create_message : Text → Option (List Text)
  pub load-dump : (r : FailureAnalysisResult) → load_json (dump_json r) ≡ object (raw_result r)
  -- a dumped dictionary stands between braces
  pub dump_braces :
      (r : FailureAnalysisResult) → (s : Text) × (dump_json r ≡ b'{' ∷ (s ++ (b'}' ∷ [])))

module _ ⦃rt : Runtime⦄ where
  abbrev pub config : Settings
  config = rt.settings

  abbrev pub Table : Type 0 → Type 0
  Table = rt.database.Table

  abbrev pub Zset : Type 0
  Zset = rt.sorted_set.Zset

module _ ⦃rt : Runtime⦄ where
  -- `parse_pipeline`, none for a `PipelineParseError`
  unfoldable pub parse_pipeline : Text → Option Pipeline
  parse_pipeline raw_yaml = parse_document (rt.load_yaml raw_yaml)

module _ ⦃rt : Runtime⦄ {R : Type 0} where
  abbrev pub get : Table R → Text → Option R
  get t k = rt.database.get t k

  abbrev pub put : Table R → Text → R → Table R
  put t k r = rt.database.put t k r

  abbrev pub select : (R → Bool) → Table R → List Text
  select p t = rt.database.select p t

  abbrev pub latest : (R → Bool) → (R → ℕ) → Table R → Option Text
  latest p key t = rt.database.latest p key t

  pub get-put :
      (t : Table R) (k j : Text) (r : R)
      → get (put t k r) j ≡ (if text_eq k j then some r else get t j)
  get-put t k j r = rt.database.get_put t k j r
