-- ===== src/Consistency/Queues.antt =====
-- The invariant under the sweeps that move queue entries, and what the reconciliation does.
use ci_system.Prelude.{
  ℕ, suc, ◌≡◌, refl, inl, inr, true, Text, text_eq_iff, some, List, [], ◌∷◌, arith, Option-cases,
}
use ci_system.Models.{Job, is_queued}
use ci_system.Prelude.Int.{pos}
use ci_system.Runtime.{Runtime, get}
use ci_system.World.{World}
use ci_system.RedisClient.{enqueue}
use ci_system.Consistency.Defs.{Consistent}
use ci_system.Prelude.Lists.{Occurs, All, All-Occurs}
use ci_system.RedisClient.{queue_score}
use ci_system.DelayedEntry.{rpartition, read_int}
use ci_system.Consistency.Later.{Consistent-later}
use ci_system.Reaper.{
  promote_entry, promote_all, promote_delayed_jobs, reconcile_job, reconcile_jobs, reconcile_row,
  reconcile_orphaned_jobs, is_active_of,
}
use ci_system.Runtime.{select}

module _ ⦃rt : Runtime⦄ where
  promote_all-Consistent :
      (entries : List Text) (n : ℕ) (w : World)
      → Consistent w
      → Consistent (promote_all entries n w).1
  unfolding promote_all promote_entry enqueue
  promote_all-Consistent [] n w c = c
  promote_all-Consistent (entry ∷ entries) n w c =
      elim (Option-cases (read_int (rpartition entry).1)) [
        | inl e ↦ rw (promote_all, promote_entry, e) c
        | inr (p, e) ↦
            rw (promote_all, promote_entry, e)
              (promote_all-Consistent entries (suc n)
                (record w {
                  readings = suc w.readings;
                  queue =
                      rt.sorted_set.zadd w.queue (rpartition entry).0
                        (queue_score p (rt.host.clock w.readings));
                  delayed = rt.sorted_set.zrem w.delayed entry;
                })
                (Consistent-later (suc w.readings) (omega arith) c))
      ]

  pub promote_delayed_jobs-Consistent :
      (w : World) → Consistent w → Consistent (promote_delayed_jobs w).1
  unfolding promote_delayed_jobs
  promote_delayed_jobs-Consistent w c =
      promote_all-Consistent
        (rt.sorted_set.zrangebyscore w.delayed (pos 0) (pos (rt.host.clock w.readings))) 0
        (record w { readings = suc w.readings }) (Consistent-later (suc w.readings) (omega arith) c)

  -- A queued job has an attempt that the query for active attempts finds.
  selected_attempt :
      (k : Text) (j : Job) (w : World)
      → Consistent w
      → get w.jobs k ≡ some j
      → is_queued j.status ≡ true
      → (i : Text) × Occurs i (select (is_active_of k) w.attempts)
  selected_attempt k j w c ej q =
      let (i, a, ea, own, act) = c.attended k j ej (ground arith) in
      (
        i,
        rt.database.select_complete (is_active_of k) w.attempts i a ea
            (ground (arith, text_eq_iff a.job_id k)),
      )

  reconcile_row_skips :
      (k i : Text) (j : Job) (ks : List Text) (r : ℕ × World)
      → Occurs i ks
      → reconcile_row k j ks r ≡ r
  unfolding reconcile_row
  reconcile_row_skips k i j [] r o = absurd o
  reconcile_row_skips k i j (h ∷ ks) r o = refl

  reconcile_job_skips :
      (k : Text) (n : ℕ) (w : World)
      → Consistent w
      → Occurs k (select (λ j. is_queued j.status) w.jobs)
      → reconcile_job k (n, w) ≡ (n, w)
  unfolding reconcile_job
  reconcile_job_skips k n w c o =
      let (j, ej, q) = rt.database.select_sound (λ j. is_queued j.status) w.jobs k o in
      let (i, hit) = selected_attempt k j w c ej q in
      rw (reconcile_job, ej) (reconcile_row_skips k i j _ (n, w) hit)

  reconcile_jobs_skips :
      (ks : List Text) (w : World)
      → All (λ k. reconcile_job k (0, w) ≡ (0, w)) ks
      → reconcile_jobs ks (0, w) ≡ (0, w)
  unfolding reconcile_jobs
  reconcile_jobs_skips [] w h = refl
  reconcile_jobs_skips (k ∷ ks) w (e, h) = rw e (reconcile_jobs_skips ks w h)

  -- In a consistent world the reconciliation finds no orphan and puts nothing back on the queue,
  -- whatever the queue has lost.
  pub reconcile_finds_none : (w : World) → Consistent w → reconcile_orphaned_jobs w ≡ (0, w)
  unfolding reconcile_orphaned_jobs
  reconcile_finds_none w c =
      reconcile_jobs_skips _ w (All-Occurs _ _ (λ k o. reconcile_job_skips k 0 w c o))
