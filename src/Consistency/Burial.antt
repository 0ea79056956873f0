-- ===== src/Consistency/Burial.antt =====
-- The invariant under `reap_dead_workers` of backend/app/scheduler/lease_manager.py.
use ci_system.Prelude.{
  suc, ◌*◌, ◌-◌, ◌≡◌, refl, inl, inr, true, Text, text_eq_iff, some, List, [], ◌∷◌, arith,
  Option-cases,
}
use ci_system.Models.{JobAttempt}
use ci_system.Runtime.{Runtime, config, get, get-put}
use ci_system.World.{World}
use ci_system.Config.{second}
use ci_system.Consistency.Defs.{Consistent}
use ci_system.Consistency.Moves.{touch}
use ci_system.Prelude.Lists.{Occurs, All, All-Occurs}
use ci_system.Consistency.Later.{Consistent-later}
use ci_system.Reaper.{
  cut_lease, cut_leases, is_held, is_held_by, is_stale, bury_worker, bury_workers,
  reap_dead_workers,
}
use ci_system.Runtime.{select}

module _ ⦃rt : Runtime⦄ where
  -- What is stored under the key, if anything, is held by the worker.
  abbrev IsHeldAt : Text → World → Text → Type 0
  IsHeldAt worker_id w k =
      (a : JobAttempt) → get w.attempts k ≡ some a → is_held_by worker_id a.worker_id ≡ true

  cut_lease-Consistent :
      (worker_id k : Text) (w : World)
      → Consistent w
      → IsHeldAt worker_id w k
      → Consistent (cut_lease k w)
  unfolding cut_lease
  cut_lease-Consistent worker_id k w c h = elim (Option-cases (get w.attempts k)) [
    | inl e ↦ rw (cut_lease, e) c
    | inr (a, e) ↦
        let held = h a e in
        rw (cut_lease, e)
          (touch (suc w.readings) k a _ c (omega arith) e refl refl refl
            (λ j ej act ag. ground arith))
  ]

  cut_lease-IsHeldAt :
      (worker_id k i : Text) (w : World)
      → IsHeldAt worker_id w k
      → IsHeldAt worker_id w i
      → IsHeldAt worker_id (cut_lease k w) i
  unfolding cut_lease
  cut_lease-IsHeldAt worker_id k i w hk hi b eb = elim (Option-cases (get w.attempts k)) [
    | inl e ↦ hi b (rw (cut_lease, e) at eb)
    | inr (a, e) ↦
        let held = hk a e in
        let cut : JobAttempt = record a { lease_expires_at = some (rt.host.clock w.readings) } in
        let eb' = rw (cut_lease, e) at eb in
        ground (arith, get-put w.attempts k i cut, hi b, text_eq_iff k i)
  ]

  All-held :
      (worker_id k : Text) (ks : List Text) (w : World)
      → IsHeldAt worker_id w k
      → All (IsHeldAt worker_id w) ks
      → All (IsHeldAt worker_id (cut_lease k w)) ks
  All-held worker_id k [] w hk h = tt
  All-held worker_id k (i ∷ ks) w hk (hi, h) =
      (cut_lease-IsHeldAt worker_id k i w hk hi, All-held worker_id k ks w hk h)

  cut_leases-Consistent :
      (worker_id : Text) (ks : List Text) (w : World)
      → Consistent w
      → All (IsHeldAt worker_id w) ks
      → Consistent (cut_leases ks w)
  unfolding cut_leases
  cut_leases-Consistent worker_id [] w c h = c
  cut_leases-Consistent worker_id (k ∷ ks) w c (hk, h) =
      cut_leases-Consistent worker_id ks (cut_lease k w) (cut_lease-Consistent worker_id k w c hk)
        (All-held worker_id k ks w hk h)

  selected_held :
      (worker_id k : Text) (w : World)
      → Occurs k (select (is_held worker_id) w.attempts)
      → IsHeldAt worker_id w k
  selected_held worker_id k w o b eb =
      let (a, ea, hit) = rt.database.select_sound (is_held worker_id) w.attempts k o in ground arith

  bury_worker-Consistent :
      (worker_id : Text) (w : World) → Consistent w → Consistent (bury_worker worker_id w)
  unfolding bury_worker
  bury_worker-Consistent worker_id w c = elim (Option-cases (get w.workers worker_id)) [
    | inl e ↦ rw (bury_worker, e) c
    | inr (r, e) ↦
        rw (bury_worker, e)
          (cut_leases-Consistent worker_id _ _ c (
            All-Occurs _ (select (is_held worker_id) w.attempts)
              (λ k. selected_held worker_id k w)))
  ]

  bury_workers-Consistent :
      (ks : List Text) (w : World) → Consistent w → Consistent (bury_workers ks w)
  unfolding bury_workers
  bury_workers-Consistent [] w c = c
  bury_workers-Consistent (k ∷ ks) w c =
      bury_workers-Consistent ks (bury_worker k w) (bury_worker-Consistent k w c)

  -- Dead workers lose their leases, and the invariant holds.
  pub reap_dead_workers-Consistent : (w : World) → Consistent w → Consistent (reap_dead_workers w).1
  unfolding reap_dead_workers
  reap_dead_workers-Consistent w c =
      bury_workers-Consistent
        (select (is_stale (rt.host.clock w.readings - config.worker_dead_after_seconds * second))
          w.workers)
        (record w { readings = suc w.readings }) (Consistent-later (suc w.readings) (omega arith) c)
