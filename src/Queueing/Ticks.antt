-- ===== src/Queueing/Ticks.antt =====
-- That the reaper goes on while Redis keeps its sets.
use ci_system.Prelude.{◌≢◌, inl, inr, none, Option-cases}
use ci_system.Runtime.{Runtime}
use ci_system.World.{World}
use ci_system.Reaper.{reap_dead_workers, reap_expired_leases, promote_delayed_jobs, run_reaper_once}
use ci_system.Queueing.Kept.{reap_dead_workers-delayed}
use ci_system.Queueing.Promotion.{promotion_completes}
use ci_system.Queueing.Steady.{Steady, Entries, Steady-Entries, reap_expired_leases-Entries}

module _ ⦃rt : Runtime⦄ where
  -- In every world that the server reaches while Redis keeps its sets, a tick of the reaper goes
  -- through all its sweeps: no member of the delayed set stops the promotion.
  pub tick_completes : {w : World} → Steady w → (run_reaper_once w).0 ≢ none
  unfolding run_reaper_once
  tick_completes {w} steady =
      let w₁ = (reap_dead_workers w).1 in
      let h₁ : Entries w₁.delayed = rw (reap_dead_workers-delayed w) (Steady-Entries steady) in
      let w₂ = (reap_expired_leases w₁).1 in
      let h₂ = reap_expired_leases-Entries w₁ h₁ in
      elim (Option-cases (promote_delayed_jobs w₂).0) [
        | inl e ↦ absurd (promotion_completes w₂ h₂ e)
        | inr (n, e) ↦ rw (run_reaper_once, e) (λ x. cc)
      ]
