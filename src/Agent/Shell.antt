-- ===== src/Agent/Shell.antt =====
-- `shlex.quote`, by which backend/app/worker/docker_executor.py puts the repository and the commit
-- into a command of the shell.
use ci_system.Prelude.{
  ℕ, Bool, true, ◌&&◌, ◌||◌, Text, codes, [], ◌∷◌, ◌++◌, leb, ◌==◌, if◌then◌else◌,
}

-- A character outside `[^\w@%+=:,./-]`, in ASCII.
unfoldable pub is_safe : ℕ → Bool
is_safe c =
    (leb b'a' c && leb c b'z')
    || (leb b'A' c && leb c b'Z')
    || (leb b'0' c && leb c b'9')
    || c == b'_'
    || c == b'@'
    || c == b'%'
    || c == b'+'
    || c == b'='
    || c == b':'
    || c == b','
    || c == b'.'
    || c == b'/'
    || c == b'-'

unfoldable pub all_safe : Text → Bool
all_safe [] = true
all_safe (c ∷ cs) = is_safe c && all_safe cs

-- `s.replace("'", "'\"'\"'")`
unfoldable pub escape_quotes : Text → Text
escape_quotes [] = []
escape_quotes (c ∷ cs) =
    let rest = escape_quotes cs in if c == 39 then 39 ∷ 34 ∷ 39 ∷ 34 ∷ 39 ∷ rest else c ∷ rest

unfoldable pub quote : Text → Text
unfolding all_safe escape_quotes
quote [] = codes "''"
quote (c ∷ cs) = if all_safe (c ∷ cs) then c ∷ cs else 39 ∷ (escape_quotes (c ∷ cs) ++ (39 ∷ []))
