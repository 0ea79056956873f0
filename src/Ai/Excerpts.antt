-- ===== src/Ai/Excerpts.antt =====
-- How much text an analysis sends (backend/app/ai/context_extractor.py).
use ci_system.Prelude.{
  ℕ, suc, ◌+◌, ◌-◌, ◌≤◌, ◌≡◌, inl, inr, Bool, true, false, Text, List, [], ◌∷◌, ◌++◌, arith,
  Bool-cases, leb, ◌==◌, if◌then◌else◌,
}
use ci_system.Prelude.Lists.{length, length-append, length-drop}
use ci_system.Runtime.{Runtime, config}
use ci_system.Ai.Schemas.{is_one_of}
use ci_system.Ai.Context.{
  last_chars, truncation_mark, truncate_log, lstrip_dots, collect_matches, collect_patterns,
  extract_referenced_paths,
}

last_chars-length : (n : ℕ) (s : Text) → 1 ≤ n → length (last_chars n s) ≤ n
unfolding last_chars
last_chars-length n s h =
    let some_chars : (n == 0) ≡ false = ground arith in
    rw (last_chars, some_chars) (omega (arith, length-drop (length s - n) s))

module _ ⦃rt : Runtime⦄ where
  -- When the limit is at least 1, the excerpt of a log is at most 20 characters longer than
  -- `ai_max_log_chars`.
  pub truncate_log-length :
      (s : Text)
      → 1 ≤ config.ai_max_log_chars
      → length (truncate_log s) ≤ config.ai_max_log_chars + 20
  unfolding truncate_log
  truncate_log-length s h = elim (Bool-cases (leb (length s) config.ai_max_log_chars)) [
    | inl short ↦ rw (truncate_log, short) (ground arith)
    | inr long ↦
        rw (truncate_log, long)
          (omega (
            arith,
            length-append truncation_mark (last_chars config.ai_max_log_chars s),
            last_chars-length config.ai_max_log_chars s h,
          ))
  ]

-- Within the limit, and below it when the loop goes on.
abbrev Fits : ℕ → List Text × Bool → Type 0
Fits n (found, returned) = (length found ≤ n) × (returned ≡ false → suc (length found) ≤ n)

extended : Text → List Text → List Text
extended path found = if is_one_of path found then found else found ++ (path ∷ [])

extended-length :
    (path : Text) (found : List Text) → length (extended path found) ≤ suc (length found)
unfolding extended
extended-length path found = ground (arith, length-append found (path ∷ []))

collect_matches-Fits :
    (n : ℕ) (groups found : List Text)
    → suc (length found) ≤ n
    → Fits n (collect_matches n groups found)
unfolding collect_matches extended
collect_matches-Fits n [] found small = (omega arith, λ e. small)
collect_matches-Fits n (group ∷ groups) found small =
    let found' = extended (lstrip_dots group) found in
    let longer = extended-length (lstrip_dots group) found in
    elim (Bool-cases (leb n (length found'))) [
      | inl full ↦ rw (collect_matches, full) (omega arith, λ e. absurd (not_going_on e))
      | inr room ↦ rw (collect_matches, room) (collect_matches-Fits n groups found' (ground arith))
    ]
  where
    not_going_on : ¬ (true ≡ false)
    not_going_on e = cc

collect_patterns-length :
    (n : ℕ) (patterns : List (List Text)) (found : List Text)
    → suc (length found) ≤ n
    → length (collect_patterns n patterns found) ≤ n
unfolding collect_patterns
collect_patterns-length n [] found small = omega arith
collect_patterns-length n (groups ∷ patterns) found small =
    let (fits, on) = collect_matches-Fits n groups found small in
    elim (Bool-cases (collect_matches n groups found).1) [
      | inl returned ↦ rw (collect_patterns, returned) fits
      | inr going ↦
          rw (collect_patterns, going)
            (collect_patterns-length n patterns (collect_matches n groups found).0 (on going))
    ]

module _ ⦃rt : Runtime⦄ where
  -- At most `max_paths` paths are taken from a log, for a limit of at least 1.
  pub extract_referenced_paths-length :
      (s : Text) (n : ℕ) → 1 ≤ n → length (extract_referenced_paths s n) ≤ n
  unfolding extract_referenced_paths
  extract_referenced_paths-length s n h = collect_patterns-length n (rt.match_paths s) [] h
