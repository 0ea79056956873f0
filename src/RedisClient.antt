-- ===== src/RedisClient.antt =====
-- backend/app/redis_client.py: the job queue. `enqueue` and `dequeue_one` are ZADD and ZPOPMIN of
-- the set at `QUEUE_KEY`; a score is a double, in ticks.
use ci_system.Prelude.{ℕ, ◌*◌, ◌^◌, Text, Option, none, some}
use ci_system.Prelude.Int.{ℤ, pos, ◌+ℤ◌, ◌-ℤ◌, ◌*ℤ◌}
use ci_system.Config.{second}
use ci_system.Runtime.{Runtime}
use ci_system.World.{World}

module _ ⦃rt : Runtime⦄ where
  -- The integer `-priority * 10**13` becomes a double before the time is added.
  unfoldable pub queue_score : ℤ → ℕ → ℤ
  queue_score priority enqueued_at_ts =
      rt.host.double
        (rt.host.double ((pos 0 -ℤ priority) *ℤ pos (10 ^ 13 * second)) +ℤ pos enqueued_at_ts)

  unfoldable pub enqueue : Text → ℤ → ℕ → World → World
  enqueue job_id priority enqueued_at_ts w = record w {
    queue = rt.sorted_set.zadd w.queue job_id (queue_score priority enqueued_at_ts);
  }

  unfoldable pub requeue : Text → ℤ → ℕ → World → World
  unfolding enqueue
  requeue job_id priority enqueued_at_ts = enqueue job_id priority enqueued_at_ts

  unfoldable pub dequeue_one : World → Option Text × World
  dequeue_one w = elim (rt.sorted_set.zpopmin w.queue) [
    | none ↦ (none, w)
    | some (job_id, rest) ↦ (some job_id, record w { queue = rest })
  ]
