-- ===== src/Runtime/Host.antt =====
-- The clock, the sources of identifiers and tokens, and the rounding of doubles. Each reading is
-- numbered: the `n`-th reading of a source is a value that the environment chooses.
use ci_system.Prelude.{ℕ, ◌≤◌, ◌<◌, ◌*◌, ◌^◌, ◌≡◌, Text}
use ci_system.Prelude.Int.{ℤ, pos, neg, ◌≤ℤ◌}

pub record Host : Type 0 where
  -- `datetime.now(timezone.utc)` and `time.time()`, in ticks; it may be set back
  pub clock : ℕ → ℕ
  -- `str(uuid.uuid4())`
  pub uuid : ℕ → Text
  -- `secrets.token_urlsafe(24)`
  pub token : ℕ → Text
  -- the double that is nearest to a number
  pub double : ℤ → ℤ
  pub uuid_injective : (m n : ℕ) → uuid m ≡ uuid n → m ≡ n
  pub token_injective : (m n : ℕ) → token m ≡ token n → m ≡ n
  pub double_mono : (a b : ℤ) → a ≤ℤ b → double a ≤ℤ double b
  -- A number of at most 53 significant bits, well within the range, is a double.
  pub double_exact : (m e : ℕ) → m < 2 ^ 53 → e ≤ 900 → double (pos (m * 2 ^ e)) ≡ pos (m * 2 ^ e)
  pub double_exact_neg :
      (m e : ℕ) → m < 2 ^ 53 → e ≤ 900 → double (neg (m * 2 ^ e)) ≡ neg (m * 2 ^ e)
