-- ===== src/Ai/Validation.antt =====
-- What every accepted answer of a provider satisfies (backend/app/ai/schemas.py).
use mathlib.Core.Path.{subst}
use ci_system.Prelude.{
  ℕ, ◌≤◌, ◌≡◌, inl, inr, true, Text, Option, none, some, arith, Option-cases, Bool-cases,
}
use ci_system.Prelude.Int.{ℤ}
use ci_system.Prelude.Lists.{length}
use ci_system.Ai.Schemas.{
  FailureAnalysisResult, RawResult, validate_result, is_one_of, categories, sized, unit_interval,
  full_confidence,
}

-- The bounds of the schema.
abbrev pub IsBounded : FailureAnalysisResult → Type 0
IsBounded r =
    (is_one_of r.failure_category categories ≡ true)
    × ((1 ≤ length r.root_cause) × (length r.root_cause ≤ 2000))
    × ((1 ≤ length r.explanation) × (length r.explanation ≤ 4000))
    × ((1 ≤ length r.suggested_fix) × (length r.suggested_fix ≤ 2000))
    × (r.confidence ≤ full_confidence)

abbrev BoundedIfAny : Option FailureAnalysisResult → Type 0
BoundedIfAny none = Unit
BoundedIfAny (some r) = IsBounded r

sized-bounds : (n : ℕ) (s t : Text) → sized n s ≡ some t → (1 ≤ length t) × (length t ≤ n)
unfolding sized
sized-bounds n s t e = ground arith

unit_interval-bound : (c : ℤ) (n : ℕ) → unit_interval c ≡ some n → n ≤ full_confidence
unfolding unit_interval
unit_interval-bound c n e = ground arith

validate_result-BoundedIfAny : (raw : RawResult) → BoundedIfAny (validate_result raw)
unfolding validate_result
validate_result-BoundedIfAny raw = elim (Option-cases (raw.failure_category)) [
  | inl e ↦ rw (validate_result, e) tt
  | inr (category, e) ↦ elim (Bool-cases (is_one_of category categories)) [
    | inr f ↦ rw (validate_result, e) (rw f tt)
    | inl f ↦ elim (Option-cases (raw.root_cause)) [
      | inl g ↦ rw (validate_result, e) (rw (f, g) tt)
      | inr (cause, g) ↦ elim (Option-cases (sized 2000 cause)) [
        | inl h ↦ rw (validate_result, e) (rw (f, g, h) tt)
        | inr (root_cause, h) ↦ elim (Option-cases (raw.explanation)) [
          | inl i ↦ rw (validate_result, e) (rw (f, g, h, i) tt)
          | inr (reasoning, i) ↦ elim (Option-cases (sized 4000 reasoning)) [
            | inl j ↦ rw (validate_result, e) (rw (f, g, h, i, j) tt)
            | inr (explanation, j) ↦ elim (Option-cases (raw.suggested_fix)) [
              | inl k ↦ rw (validate_result, e) (rw (f, g, h, i, j, k) tt)
              | inr (fix, k) ↦ elim (Option-cases (sized 2000 fix)) [
                | inl l ↦ rw (validate_result, e) (rw (f, g, h, i, j, k, l) tt)
                | inr (suggested_fix, l) ↦ elim (Option-cases (raw.confidence)) [
                  | inl m ↦ rw (validate_result, e) (rw (f, g, h, i, j, k, l, m) tt)
                  | inr (certainty, m) ↦ elim (Option-cases (unit_interval certainty)) [
                    | inl n ↦ rw (validate_result, e) (rw (f, g, h, i, j, k, l, m, n) tt)
                    | inr (confidence, n) ↦
                        rw (validate_result, e)
                          (rw (f, g, h, i, j, k, l, m, n)
                            (
                              f,
                              sized-bounds 2000 cause _ h,
                              sized-bounds 4000 reasoning _ j,
                              sized-bounds 2000 fix _ l,
                              unit_interval-bound certainty _ n,
                            ))
                  ]
                ]
              ]
            ]
          ]
        ]
      ]
    ]
  ]
]

-- Every answer that passes validation names a known category, has texts that are not empty and
-- keep to their lengths, and a confidence of at most 1.
pub validate_result-IsBounded :
    (raw : RawResult) (r : FailureAnalysisResult) → validate_result raw ≡ some r → IsBounded r
validate_result-IsBounded raw r e = subst BoundedIfAny e (validate_result-BoundedIfAny raw)
