-- ===== src/Ai/Context.antt =====
-- backend/app/ai/context_extractor.py: the log excerpt and the source snippets.
use ci_system.Prelude.{
  ℕ, ◌-◌, Bool, true, false, ◌||◌, Text, codes, Option, none, some, List, [], ◌∷◌, ◌++◌, leb, ◌==◌,
  if◌then◌else◌,
}
use ci_system.Prelude.Lists.{length, take, drop}
use ci_system.Runtime.{Runtime, config}
use ci_system.Ai.Schemas.{SourceSnippet, is_one_of}
use ci_system.Ai.Mock.{any_occurs}

-- `s[-n:]`, which is all of `s` for n = 0
unfoldable pub last_chars : ℕ → Text → Text
last_chars n s = if n == 0 then s else drop (length s - n) s

abbrev pub truncation_mark : Text
truncation_mark = codes "...[truncated]..." ++ (10 ∷ [])

-- `path.lstrip("./")`
unfoldable pub lstrip_dots : Text → Text
lstrip_dots [] = []
lstrip_dots (c ∷ cs) = if c == b'.' || c == b'/' then lstrip_dots cs else c ∷ cs

-- `_IRRELEVANT_PATH_SEGMENTS`
abbrev pub irrelevant_segments : List Text
irrelevant_segments =
    codes "node_modules"
    ∷ codes "site-packages"
    ∷ codes ".git"
    ∷ codes "__pycache__"
    ∷ codes ".tox"
    ∷ codes "dist/"
    ∷ []

-- The inner loop of `extract_referenced_paths` over one pattern's matches; the flag says that the
-- function returned.
unfoldable pub collect_matches : ℕ → List Text → List Text → List Text × Bool
unfolding is_one_of lstrip_dots
collect_matches max_paths [] found = (found, false)
collect_matches max_paths (group ∷ groups) found =
    let path = lstrip_dots group in
    let found' = if is_one_of path found then found else found ++ (path ∷ []) in
    let rest = collect_matches max_paths groups found' in
    if leb max_paths (length found') then (found', true) else rest

-- The loop over the patterns; each list holds the first groups of the matches of one pattern.
unfoldable pub collect_patterns : ℕ → List (List Text) → List Text → List Text
unfolding collect_matches
collect_patterns max_paths [] found = found
collect_patterns max_paths (groups ∷ patterns) found =
    let (found', returned) = collect_matches max_paths groups found in
    let rest = collect_patterns max_paths patterns found' in if returned then found' else rest

module _ ⦃rt : Runtime⦄ where
  unfoldable pub truncate_log : Text → Text
  unfolding last_chars
  truncate_log log_text =
      if leb (length log_text) config.ai_max_log_chars
      then log_text
      else truncation_mark ++ last_chars config.ai_max_log_chars log_text

  unfoldable pub extract_referenced_paths : Text → ℕ → List Text
  unfolding collect_patterns
  extract_referenced_paths log_text max_paths =
      collect_patterns max_paths (rt.match_paths log_text) []

  -- `read_inside` gives the text of a file that lies under the checkout and can be read.
  snippets_of : (Text → Option Text) → List Text → List SourceSnippet
  unfolding any_occurs
  snippets_of read_inside [] = []
  snippets_of read_inside (rel_path ∷ paths) =
      let rest = snippets_of read_inside paths in
      if any_occurs irrelevant_segments rel_path then rest else elim (read_inside rel_path) [
        | none ↦ rest
        | some content ↦
            record {
              path = rel_path;
              content = take config.ai_max_file_chars content;
              reason = codes "referenced in failure log";
            }
            ∷ rest
      ]

  unfoldable pub build_source_context : (Text → Option Text) → Text → List SourceSnippet
  unfolding extract_referenced_paths snippets_of
  build_source_context read_inside log_text =
      snippets_of read_inside (extract_referenced_paths log_text config.ai_max_source_files)
