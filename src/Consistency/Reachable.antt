-- ===== src/Consistency/Reachable.antt =====
-- The worlds that the server reaches.
use ci_system.Prelude.{◌≤◌, ◌≡◌, true, Text, some, sym}
use Prim.Native.Nat.{max}
use ci_system.Models.{JobAttempt, is_active}
use ci_system.Runtime.{Runtime, config, get}
use ci_system.World.{World}
use ci_system.Reaper.{reconcile_orphaned_jobs}
use ci_system.Server.{start, Step, serves, loses_redis, Reach, begins, follows}
use ci_system.Consistency.Defs.{Consistent}
use ci_system.Consistency.Moves.{active_unique}
use ci_system.Consistency.Requests.{serve-Consistent}
use ci_system.Consistency.Queues.{reconcile_finds_none}

module _ ⦃rt : Runtime⦄ where
  start-Consistent : Consistent start
  unfolding start
  start-Consistent = record {
    linked = λ k a e. absurd (no_row k a e);
    agreed = λ k a j e ej act. absurd (no_row k a e);
    newest = λ k i a b e eb s act. absurd (no_row k a e);
    numbered = λ k i a b e eb s n. absurd (no_row k a e);
    attended = λ k j ej op. absurd (no_row k j ej);
    counted = λ k a e. absurd (no_row k a e);
    fresh_attempt = λ n le. rt.database.get_empty _;
    fresh_job = λ n le. rt.database.get_empty _;
  }
    where
      no_row : {R : Type 0} (k : Text) (r : R) → get rt.database.empty k ≡ some r → ⊥
      no_row {R} k r e = cc (rt.database.get_empty {R = R} k)

  Step-Consistent : {v w : World} → Step v w → Consistent v → Consistent w
  Step-Consistent {v} (serves q) c = serve-Consistent q v c
  Step-Consistent (loses_redis queue delayed) c = c

  -- In every world that the server reaches, by requests, background tasks and ticks of the reaper
  -- in any order and with Redis losing or changing its sets at any time, the invariant holds.
  pub Reach-Consistent : {w : World} → Reach w → Consistent w
  Reach-Consistent begins = start-Consistent
  Reach-Consistent (follows r s) = Step-Consistent s (Reach-Consistent r)

  -- In a reachable world two active attempts (leased or running) of one job are the same attempt.
  pub one_active_attempt :
      {w : World} (k i : Text) (a b : JobAttempt)
      → Reach w
      → get w.attempts k ≡ some a
      → get w.attempts i ≡ some b
      → b.job_id ≡ a.job_id
      → is_active a.status ≡ true
      → is_active b.status ≡ true
      → k ≡ i
  one_active_attempt k i a b r ea eb = active_unique (Reach-Consistent r) k i a b ea eb

  -- In a reachable world the attempts of one job have different numbers, from 1 to the larger of 1
  -- and `max_job_attempts`: a job is tried at most that often.
  pub attempts_bounded :
      {w : World} (k i : Text) (a b : JobAttempt)
      → Reach w
      → get w.attempts k ≡ some a
      → get w.attempts i ≡ some b
      → b.job_id ≡ a.job_id
      → (1 ≤ a.attempt_number)
        × (a.attempt_number ≤ max 1 config.max_job_attempts)
        × (a.attempt_number ≡ b.attempt_number → k ≡ i)
  attempts_bounded k i a b r ea eb same =
      let c = Reach-Consistent r in
      let (low, high) = c.counted k a ea in (low, high, λ e. c.numbered k i a b ea eb same (sym e))

  -- In a reachable world `reconcile_orphaned_jobs` re-enqueues nothing and changes nothing, also
  -- when Redis has lost the entries of queued jobs.
  pub reconcile_never_requeues : {w : World} → Reach w → reconcile_orphaned_jobs w ≡ (0, w)
  reconcile_never_requeues {w} r = reconcile_finds_none w (Reach-Consistent r)
