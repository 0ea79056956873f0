-- ===== src/Consistency/Moves/Unique.antt =====
-- The active attempts of one job.
use ci_system.Prelude.{ℕ, ◌≡◌, sym, true, Text, some, arith}
use ci_system.Models.{Job, JobAttempt, is_active}
use ci_system.Runtime.{Runtime, Table, get}
use ci_system.Consistency.Defs.{ConsistentTables}

module _ ⦃rt : Runtime⦄ {jobs : Table Job} {attempts : Table JobAttempt} {n : ℕ}
    (c : ConsistentTables jobs attempts n) where
  -- Two active attempts of one job are the same.
  pub active_unique :
      (k i : Text) (a b : JobAttempt)
      → get attempts k ≡ some a
      → get attempts i ≡ some b
      → b.job_id ≡ a.job_id
      → is_active a.status ≡ true
      → is_active b.status ≡ true
      → k ≡ i
  active_unique k i a b ea eb same act bact =
      c.numbered k i a b ea eb same
        (omega (arith, c.newest k i a b ea eb same act, c.newest i k b a eb ea (sym same) bact))
