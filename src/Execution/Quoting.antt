-- ===== src/Execution/Quoting.antt =====
-- What a shell reads of the checkout command of backend/app/worker/docker_executor.py.
use ci_system.Prelude.{
  ℕ, ◌≡◌, refl, inl, inr, Bool, true, ◌||◌, Text, Option, none, some, [], ◌∷◌, ◌++◌, append_assoc,
  append-nil, ap, sym, codes, ◌∙◌, arith, Bool-cases, ◌==◌, if◌then◌else◌,
}
use ci_system.Prelude.Int.{pos}
use ci_system.DelayedEntry.{show_int}
use ci_system.Runtime.{Runtime, config}
use ci_system.Agent.Steps.{install_git, checkout_cmd}
use ci_system.Agent.Shell.{is_safe, all_safe, escape_quotes, quote}

-- Where a shell stands in a word.
pub data Quotes : Type 0 where
  unquoted single double : Quotes

abbrev and_then : ℕ → Option (Text × Text) → Option (Text × Text)
and_then c none = none
and_then c (some (word, rest)) = some (c ∷ word, rest)

-- The word at the start of a command, by the rules of the POSIX shell, and the rest from the blank
-- that ends it: none when a character outside single quotes has another meaning than itself.
pub read_word : Quotes → Text → Option (Text × Text)
read_word unquoted [] = some ([], [])
read_word unquoted (c ∷ cs) =
    if c == 32
    then some ([], c ∷ cs)
    else if c == 39
    then read_word single cs
    else if c == 34
    then read_word double cs
    else if is_safe c
    then and_then c (read_word unquoted cs)
    else none
read_word single [] = none
read_word single (c ∷ cs) =
    if c == 39 then read_word unquoted cs else and_then c (read_word single cs)
read_word double [] = none
read_word double (c ∷ cs) =
    if c == 34
    then read_word unquoted cs
    else if c == 36 || c == 96 || c == 92
    then none
    else and_then c (read_word double cs)

-- The end of the command, or a blank.
abbrev pub ends_word : Text → Bool
ends_word [] = true
ends_word (c ∷ cs) = c == 32

read_end : (rest : Text) → ends_word rest ≡ true → read_word unquoted rest ≡ some ([], rest)
unfolding read_word
read_end [] h = refl
read_end (c ∷ cs) h = ground arith

read_safe :
    (s rest : Text)
    → all_safe s ≡ true
    → ends_word rest ≡ true
    → read_word unquoted (s ++ rest) ≡ some (s, rest)
unfolding read_word all_safe is_safe
read_safe [] rest h e = read_end rest e
read_safe (c ∷ cs) rest h e = ground (arith, read_safe cs rest)

read_escaped :
    (s rest : Text)
    → ends_word rest ≡ true
    → read_word single (escape_quotes s ++ (39 ∷ rest)) ≡ some (s, rest)
unfolding read_word escape_quotes
read_escaped [] rest e = read_end rest e
read_escaped (c ∷ cs) rest e = elim (Bool-cases (c == 39)) [
  | inl is_quote ↦
      rw is_quote (let same : c ≡ 39 = ground arith in rw (read_escaped cs rest e) (rw same refl))
  | inr other ↦ rw other (rw other (rw (read_escaped cs rest e) refl))
]

-- A quoted text is one word.
read_word-quote :
    (s rest : Text) → ends_word rest ≡ true → read_word unquoted (quote s ++ rest) ≡ some (s, rest)
unfolding read_word quote
read_word-quote [] rest e = read_end rest e
read_word-quote (c ∷ cs) rest e = elim (Bool-cases (all_safe (c ∷ cs))) [
  | inl safe ↦ rw safe (read_safe (c ∷ cs) rest safe e)
  | inr other ↦
      rw other
        (rw (append_assoc (escape_quotes (c ∷ cs)) (39 ∷ []) rest) (read_escaped (c ∷ cs) rest e))
]

module _ ⦃rt : Runtime⦄ where
  -- The shell finds the repository as the one word after `git clone --depth N --`, and the commit as
  -- the last word, after `git checkout`, whatever characters they have: no character of either ends
  -- its word or is taken for a part of the command.
  pub checkout_cmd_lem :
      (repo_url commit_sha : Text)
      → (from_url from_commit : Text) × (checkout_cmd repo_url commit_sha
          ≡ install_git
            ++ (codes "git clone --depth "
                ++ (show_int (pos config.git_clone_depth) ++ (codes " -- " ++ from_url))))
        × (read_word unquoted from_url
            ≡ some (
              repo_url,
              codes " /workspace/repo && cd /workspace/repo && git checkout " ++ from_commit,
            ))
        × (read_word unquoted from_commit ≡ some (commit_sha, []))
  unfolding checkout_cmd
  checkout_cmd_lem repo_url commit_sha =
      let tail =
        codes " /workspace/repo && cd /workspace/repo && git checkout " ++ quote commit_sha in
      let last : read_word unquoted (quote commit_sha) ≡ some (commit_sha, []) =
        ap (read_word unquoted) (sym (append-nil (quote commit_sha)))
        ∙ read_word-quote commit_sha [] refl in
      (quote repo_url ++ tail, quote commit_sha, refl, read_word-quote repo_url tail refl, last)
