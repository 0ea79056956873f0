-- ===== src/Ai/Mock.antt =====
-- backend/app/ai/providers/mock_provider.py: the keyword heuristics of the default provider.
use ci_system.Prelude.{
  Bool, true, false, ◌&&◌, ◌||◌, Text, codes, Option, none, some, List, [], ◌∷◌, ◌++◌, ◌==◌,
  if◌then◌else◌,
}
use ci_system.Ai.Schemas.{FailureAnalysisRequest, FailureAnalysisResult}
use ci_system.DelayedEntry.{show_int}

abbrev pub is_prefix : Text → Text → Bool
is_prefix [] s = true
is_prefix (c ∷ cs) [] = false
is_prefix (c ∷ cs) (d ∷ ds) = c == d && is_prefix cs ds

-- `k in log`
unfoldable pub occurs_in : Text → Text → Bool
occurs_in k [] = is_prefix k []
occurs_in k (c ∷ cs) = is_prefix k (c ∷ cs) || occurs_in k cs

unfoldable pub any_occurs : List Text → Text → Bool
any_occurs [] log = false
any_occurs (k ∷ ks) log = occurs_in k log || any_occurs ks log

pub record Rule : Type 0 where
  pub keywords : List Text
  pub category : Text
  pub cause : Text
  pub fix : Text

-- `_RULES`
abbrev pub rules : List Rule
rules =
    record {
      keywords =
          codes "ModuleNotFoundError"
          ∷ codes "No module named"
          ∷ codes "Cannot find module"
          ∷ codes "ImportError"
          ∷ [];
      category = codes "dependency_error";
      cause = codes "A required dependency is missing or not installed in the build image.";
      fix =
          codes
            "Add the missing package to the project's dependency manifest (requirements.txt / package.json) and ensure the install step runs before the failing step.";
    }
    ∷ record {
      keywords = codes "AssertionError" ∷ codes "assert " ∷ codes "FAILED" ∷ codes "test_" ∷ [];
      category = codes "test_failure";
      cause = codes "One or more test assertions did not hold for the code under test.";
      fix =
          codes
            "Inspect the failing assertion and the function it exercises; the test expectation and the implementation have diverged.";
    }
    ∷ record {
      keywords =
          codes "SyntaxError"
          ∷ codes "error: expected"
          ∷ codes "compilation failed"
          ∷ codes "cannot find symbol"
          ∷ [];
      category = codes "compile_error";
      cause = codes "The code does not compile/parse as written.";
      fix =
          codes
            "Review the referenced file and line for a syntax or type error introduced in this commit.";
    }
    ∷ record {
      keywords = codes "timed out" ∷ codes "timeout" ∷ codes "DeadlineExceeded" ∷ [];
      category = codes "timeout";
      cause = codes "A step exceeded its allotted execution time.";
      fix =
          codes
            "Profile the slow step; consider raising the pipeline timeout or optimizing/parallelizing the operation.";
    }
    ∷ []

-- `category.replace('_', ' ')`
abbrev spaced : Text → Text
spaced [] = []
spaced (c ∷ cs) = (if c == b'_' then b' ' else c) ∷ spaced cs

-- `failed_step or word`
unfoldable pub or_word : Option Text → Text → Text
or_word none word = word
or_word (some []) word = word
or_word (some (c ∷ cs)) word = c ∷ cs

-- The first words of an explanation.
preamble : FailureAnalysisRequest → Text
unfolding or_word show_int
preamble request =
    codes "The '"
    ++ (or_word request.failed_step (codes "build")
        ++ (codes "' step exited with code " ++ show_int request.exit_code))

matched : FailureAnalysisRequest → Rule → FailureAnalysisResult
unfolding preamble
matched request rule = record {
  failure_category = rule.category;
  root_cause = rule.cause;
  explanation =
      preamble request
      ++ (codes ". Log content matched patterns typically associated with a "
          ++ (spaced rule.category ++ codes "."));
  suggested_fix = rule.fix;
  confidence = 550_000_000;
}

unmatched : FailureAnalysisRequest → FailureAnalysisResult
unfolding preamble
unmatched request = record {
  failure_category = codes "unknown";
  root_cause = codes "Unable to confidently determine the root cause from available logs.";
  explanation =
      preamble request ++ codes " but the log did not match any recognizable failure pattern.";
  suggested_fix =
      codes
        "Review the full job log manually; consider adding more verbose logging to the failing step.";
  confidence = 200_000_000;
}

first_match : List Rule → FailureAnalysisRequest → FailureAnalysisResult
unfolding matched unmatched any_occurs
first_match [] request = unmatched request
first_match (rule ∷ rest) request =
    if any_occurs rule.keywords request.log_excerpt
    then matched request rule
    else first_match rest request

-- The dictionary that `MockProvider.analyze` dumps.
unfoldable pub mock_analysis : FailureAnalysisRequest → FailureAnalysisResult
unfolding first_match
mock_analysis request = first_match rules request
