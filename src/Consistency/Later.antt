-- ===== src/Consistency/Later.antt =====
-- The invariant under readings of the environment, and between worlds of equal tables.
use ci_system.Prelude.{ℕ, ◌≤◌, ◌≡◌, Text, arith}
use ci_system.Models.{Job, JobAttempt}
use ci_system.Runtime.{Runtime, Table, get}
use ci_system.World.{World}
use ci_system.Consistency.Defs.{ConsistentTables, Consistent}

module _ ⦃rt : Runtime⦄ where
  -- Readings that are used up change nothing.
  pub Consistent-later :
      {jobs : Table Job} {attempts : Table JobAttempt} {n : ℕ} (m : ℕ)
      → n ≤ m
      → ConsistentTables jobs attempts n
      → ConsistentTables jobs attempts m
  Consistent-later m le c = record {
    linked = c.linked;
    agreed = c.agreed;
    newest = c.newest;
    numbered = c.numbered;
    attended = c.attended;
    counted = c.counted;
    fresh_attempt = λ p h. c.fresh_attempt p (omega arith);
    fresh_job = λ p h. c.fresh_job p (omega arith);
  }

  -- The invariant reads the jobs through `get` alone.
  pub Consistent-same :
      {jobs jobs' : Table Job} {attempts : Table JobAttempt} {n : ℕ}
      → ((k : Text) → get jobs' k ≡ get jobs k)
      → ConsistentTables jobs attempts n
      → ConsistentTables jobs' attempts n
  Consistent-same same c = record {
    linked = λ k a ea. rw (same a.job_id) (c.linked k a ea);
    agreed = λ k a j ea ej. c.agreed k a j ea (ground (arith, same a.job_id));
    newest = c.newest;
    numbered = c.numbered;
    attended = λ k j ej. c.attended k j (ground (arith, same k));
    counted = c.counted;
    fresh_attempt = c.fresh_attempt;
    fresh_job = λ p h. rw (same (rt.host.uuid p)) (c.fresh_job p h);
  }

  -- The second world has the jobs and attempts of the first.
  abbrev pub SameJobs : World → World → Type 0
  SameJobs w w' = (w'.jobs ≡ w.jobs) × (w'.attempts ≡ w.attempts) × (w.readings ≤ w'.readings)

  pub Consistent-SameJobs : (w w' : World) → SameJobs w w' → Consistent w → Consistent w'
  Consistent-SameJobs w w' (j, a, le) c = rw (j, a) (Consistent-later w'.readings le c)
