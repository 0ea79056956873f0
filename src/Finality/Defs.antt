-- ===== src/Finality/Defs.antt =====
-- What it means to keep the rows of closed jobs.
use ci_system.Prelude.{
  ℕ, suc, ◌≡◌, inl, inr, true, false, Text, text_eq_iff, some, arith, Bool-cases, leb,
}
use ci_system.Models.{Job, JobAttempt, is_active}
use ci_system.Runtime.{Runtime, Table, config, get, put, get-put}
use ci_system.World.{World, save_attempt}
use ci_system.Lease.{maybe_retry}
use ci_system.Consistency.{Consistent, is_open}

module _ ⦃rt : Runtime⦄ where
  -- Every closed job of the first world has the same row in the second.
  abbrev pub KeepsClosed : World → World → Type 0
  KeepsClosed w w' =
      (k : Text) (j : Job)
      → get w.jobs k ≡ some j
      → is_open j.status ≡ false
      → get w'.jobs k ≡ some j

  -- A write to the row of an open job changes no closed one.
  pub put-keeps :
      (jobs : Table Job) (h : Text) (y x : Job)
      → get jobs h ≡ some y
      → is_open y.status ≡ true
      → (k : Text) (j : Job) → get jobs k ≡ some j
      → is_open j.status ≡ false
      → get (put jobs h x) k ≡ some j
  put-keeps jobs h y x ey op k j ej closed = ground (arith, get-put jobs h k x, text_eq_iff h k)

  -- The job of an active attempt is open.
  pub open_of_active :
      (k : Text) (a : JobAttempt) (j : Job) (w : World)
      → Consistent w
      → get w.attempts k ≡ some a
      → get w.jobs a.job_id ≡ some j
      → is_active a.status ≡ true
      → is_open j.status ≡ true
  open_of_active k a j w c ea ej act = ground (arith, c.agreed k a j ea ej act)

  pub maybe_retry-keeps :
      (k : Text) (a a' : JobAttempt) (j : Job) (n : ℕ) (w : World)
      → Consistent w
      → get w.attempts k ≡ some a
      → get w.jobs a.job_id ≡ some j
      → is_active a.status ≡ true
      → KeepsClosed w
          (maybe_retry a.job_id j n (save_attempt k a' (record w { readings = suc w.readings }))).1
  unfolding maybe_retry
  maybe_retry-keeps k a a' j n w c ea ej act i q eq closed =
      elim (Bool-cases (leb config.max_job_attempts n)) [
        | inl spent ↦
            rw (maybe_retry, spent)
              (put-keeps w.jobs a.job_id j _ ej (open_of_active k a j w c ea ej act) i q eq closed)
        | inr left ↦
            rw (maybe_retry, left)
              (put-keeps w.jobs a.job_id j _ ej (open_of_active k a j w c ea ej act) i q eq closed)
      ]
