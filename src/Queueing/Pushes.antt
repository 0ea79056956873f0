-- ===== src/Queueing/Pushes.antt =====
-- Which pushes of backend/app/api/webhooks.py have an effect.
use ci_system.Prelude.{
  ◌≡◌, ◌≢◌, refl, sym, inl, inr, true, false, codes, Text, text_eq, text_eq_iff, Option, none, some,
  [], ◌∷◌, arith, Option-cases, Bool-cases,
}
use ci_system.Models.{Project}
use ci_system.Runtime.{Runtime, get}
use ci_system.World.{World}
use ci_system.Api.Webhooks.{Push, verify, push_job, github_webhook}

verify-token :
    (r : Project) (t : Option Text)
    → verify r t ≡ true
    → (t ≡ some r.webhook_token) × (r.webhook_token ≢ [])
unfolding verify
verify-token r none e = absurd (no_token e)
  where
    no_token : ¬ (false ≡ true)
    no_token h = cc
verify-token r (some []) e = absurd (no_token e)
  where
    no_token : ¬ (false ≡ true)
    no_token h = cc
verify-token r (some (c ∷ cs)) e =
    let same : c ∷ cs ≡ r.webhook_token = ground (arith, text_eq_iff (c ∷ cs) r.webhook_token) in
    rw (sym same) (refl, λ h. cc)

module _ ⦃rt : Runtime⦄ where
  -- A request to the webhook that has any effect names a project and carries its token, which is
  -- not empty, and its event is a push.
  pub push_needs_token :
      (k : Text) (t : Option Text) (p : Push) (w : World)
      → (github_webhook k t p w).1 ≢ w
      → (r : Project) × (get w.projects k ≡ some r)
        × (t ≡ some r.webhook_token)
        × (r.webhook_token ≢ [])
        × (p.event ≡ codes "push")
  unfolding github_webhook push_job
  push_needs_token k t p w effect = elim (Option-cases (get w.projects k)) [
    | inl e ↦ absurd (effect (rw (github_webhook, e) refl))
    | inr (r, e) ↦ elim (Bool-cases (verify r t)) [
      | inr refused ↦ absurd (effect (rw (github_webhook, e) (rw refused refl)))
      | inl trusted ↦ elim (Bool-cases (text_eq p.event (codes "push"))) [
        | inr other ↦
            absurd (effect (rw (github_webhook, e) (rw trusted (rw (push_job, other) refl))))
        | inl push ↦
            let (token, some_token) = verify-token r t trusted in
            (r, e, token, some_token, ground (arith, text_eq_iff p.event (codes "push")))
      ]
    ]
  ]
