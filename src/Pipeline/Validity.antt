-- ===== src/Pipeline/Validity.antt =====
-- What every accepted pipeline of backend/app/pipeline.py satisfies.
use ci_system.Prelude.{
  ℕ, ◌^◌, ◌≤◌, ◌≡◌, ◌⊎◌, inl, inr, codes, text_eq_iff, Text, Option, none, some, List, [], ◌∷◌,
  arith, Option-cases,
}
use mathlib.Core.Path.{subst}
use ci_system.Prelude.Int.{ℤ, pos}
use ci_system.Prelude.Lists.{length}
use ci_system.Pipeline.{
  Pipeline, PipelineStep, RawPipeline, Document, mapping, with_default, positive, supported_network,
  must_have_steps, parse_steps, validate, parse_document,
}

-- The bounds of the schema.
abbrev pub IsValid : Pipeline → Type 0
IsValid p =
    (1 ≤ p.timeout_seconds)
    × (1 ≤ p.resources.cpus)
    × ((p.network ≡ codes "none") ⊎ (p.network ≡ codes "bridge"))
    × (1 ≤ length p.steps)

abbrev ValidIfAny : Option Pipeline → Type 0
ValidIfAny none = Unit
ValidIfAny (some p) = IsValid p

positive-bound : (n : ℤ) (m : ℕ) → positive n ≡ some m → 1 ≤ m
positive-bound n m e = ground arith

supported_network-cases :
    (v u : Text) → supported_network v ≡ some u → (u ≡ codes "none") ⊎ (u ≡ codes "bridge")
unfolding supported_network
supported_network-cases v u e =
    ground (arith, text_eq_iff v (codes "none"), text_eq_iff v (codes "bridge"))

must_have_steps-bound :
    (s steps : List PipelineStep) → must_have_steps s ≡ some steps → 1 ≤ length steps
unfolding must_have_steps
must_have_steps-bound [] steps e = absurd (none_is_not_some e)
  where
    none_is_not_some : ¬ (none ≡ some steps)
    none_is_not_some h = cc
must_have_steps-bound (s ∷ rest) steps e = ground arith

validate-IsValid : (raw : RawPipeline) → ValidIfAny (validate raw)
unfolding validate
validate-IsValid raw = elim (Option-cases raw.image) [
  | inl e ↦ rw (validate, e) tt
  | inr (image, e) ↦ elim (Option-cases (positive (with_default (pos 900) raw.timeout_seconds))) [
    | inl f ↦ rw (validate, e) (rw f tt)
    | inr (timeout, f) ↦ elim (Option-cases (positive (with_default (pos (2 ^ 1074)) raw.cpus))) [
      | inl g ↦ rw (validate, e) (rw (f, g) tt)
      | inr (cpus, g) ↦
          elim (Option-cases (supported_network (with_default (codes "none") raw.network))) [
            | inl h ↦ rw (validate, e) (rw (f, g, h) tt)
            | inr (network, h) ↦ elim (Option-cases raw.steps) [
              | inl i ↦ rw (validate, e) (rw (f, g, h, i) tt)
              | inr (raw_steps, i) ↦ elim (Option-cases (parse_steps raw_steps)) [
                | inl j ↦ rw (validate, e) (rw (f, g, h, i, j) tt)
                | inr (parsed, j) ↦ elim (Option-cases (must_have_steps parsed)) [
                  | inl k ↦ rw (validate, e) (rw (f, g, h, i, j, k) tt)
                  | inr (steps, k) ↦
                      rw (validate, e)
                        (rw (f, g, h, i, j, k)
                          (
                            positive-bound _ timeout f,
                            positive-bound _ cpus g,
                            supported_network-cases _ network h,
                            must_have_steps-bound parsed steps k,
                          ))
                ]
              ]
            ]
          ]
    ]
  ]
]

-- An accepted pipeline has a positive timeout, a positive share of processors, no network or the
-- bridge, and at least one step.
pub accepted_pipeline-IsValid :
    (d : Document) (p : Pipeline) → parse_document d ≡ some p → IsValid p
unfolding parse_document
accepted_pipeline-IsValid (mapping raw) p e = subst ValidIfAny e (validate-IsValid raw)
accepted_pipeline-IsValid _ p e = absurd (none_is_not_some e)
  where
    none_is_not_some : ¬ (none ≡ some p)
    none_is_not_some h = cc
