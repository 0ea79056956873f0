-- ===== src/Ai/Anthropic.antt =====
-- backend/app/ai/providers/anthropic_provider.py: the prompt.
use ci_system.Prelude.{Text, codes, List, [], ◌∷◌, ◌++◌}
use ci_system.Ai.Schemas.{FailureAnalysisRequest, SourceSnippet}
use ci_system.Ai.Mock.{or_word}
use ci_system.DelayedEntry.{show_int}

-- `"\n".join(parts)`
unfoldable pub join_lines : List Text → Text
join_lines [] = []
join_lines (part ∷ []) = part
join_lines (part ∷ next ∷ rest) = part ++ (10 ∷ join_lines (next ∷ rest))

snippet_part : SourceSnippet → Text
snippet_part snippet =
    10
    ∷ (codes "# "
        ++ (snippet.path
            ++ (codes " (" ++ (snippet.reason ++ (codes ")" ++ (10 ∷ snippet.content))))))

snippet_parts : List SourceSnippet → List Text
unfolding snippet_part
snippet_parts [] = []
snippet_parts (snippet ∷ rest) = snippet_part snippet ∷ snippet_parts rest

context_parts : List SourceSnippet → List Text
unfolding snippet_parts
context_parts [] = []
context_parts (snippet ∷ rest) =
    (10 ∷ codes "--- Relevant source context ---") ∷ snippet_parts (snippet ∷ rest)

-- `_build_prompt`
unfoldable pub build_prompt : FailureAnalysisRequest → Text
unfolding join_lines context_parts or_word show_int
build_prompt request = join_lines (
    (codes "Project: " ++ request.project_name)
    ∷ (codes "Commit: " ++ request.commit_sha)
    ∷ (codes "Failed step: " ++ or_word request.failed_step (codes "unknown"))
    ∷ (codes "Exit code: " ++ show_int request.exit_code)
    ∷ (10 ∷ (codes "--- Log excerpt ---" ++ (10 ∷ request.log_excerpt)))
    ∷ context_parts request.source_context)
