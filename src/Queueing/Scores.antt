-- ===== src/Queueing/Scores.antt =====
-- The order in which backend/app/redis_client.py serves the jobs.
use ci_system.Prelude.{
  ◌∙◌, ℕ, zero, suc, ◌+◌, ◌*◌, ◌^◌, ◌≤◌, ◌<◌, ◌≡◌, refl, Text, Option, none, some, arith, ap, inl,
  inr, Option-cases, Bool-cases, ltb,
}
use ci_system.Prelude.Int.{
  ℤ, pos, neg, pos_part, neg_part, ◌+ℤ◌, ◌-ℤ◌, ◌*ℤ◌, ◌≤ℤ◌, ◌<ℤ◌, eq_of_parts, +ℤ_parts, -ℤ_parts,
}
use ci_system.Config.{second}
use ci_system.Runtime.{Runtime}
use ci_system.World.{World}
use ci_system.RedisClient.{queue_score, dequeue_one}

neg_parts : (n : ℕ) → (pos_part (neg n) ≡ 0) × (neg_part (neg n) ≡ n)
neg_parts zero = (refl, refl)
neg_parts (suc n) = (refl, refl)

zero-minus : (p : ℕ) → pos 0 -ℤ pos p ≡ neg p
zero-minus p =
    eq_of_parts _ _ (omega (arith, -ℤ_parts (pos 0) (pos p), (neg_parts p).0, (neg_parts p).1))

neg-times : (p k : ℕ) → neg p *ℤ pos k ≡ neg (p * k)
unfolding ◌*ℤ◌
neg-times p k = eq_of_parts _ _ (ground (arith, neg_parts p, neg_parts (p * k)))

below_half :
    (p q t : ℕ)
    → q < p
    → p < 2 ^ 20
    → t ≤ 10 ^ 12 * second
    → neg (p * 1220703125 * 2 ^ 35) +ℤ pos t ≤ℤ neg ((2 * q + 1) * 1220703125 * 2 ^ 34)
below_half p q t lt small early = omega (
  arith,
  +ℤ_parts (neg (p * 1220703125 * 2 ^ 35)) (pos t),
  (neg_parts (p * 1220703125 * 2 ^ 35)).0,
  (neg_parts (p * 1220703125 * 2 ^ 35)).1,
  (neg_parts ((2 * q + 1) * 1220703125 * 2 ^ 34)).0,
  (neg_parts ((2 * q + 1) * 1220703125 * 2 ^ 34)).1,
)

later : (q u : ℕ) → neg (q * 1220703125 * 2 ^ 35) ≤ℤ neg (q * 1220703125 * 2 ^ 35) +ℤ pos u
later q u = omega (arith, +ℤ_parts (neg (q * 1220703125 * 2 ^ 35)) (pos u))

between :
    (q : ℕ) (a b : ℤ)
    → a ≤ℤ neg ((2 * q + 1) * 1220703125 * 2 ^ 34)
    → neg (q * 1220703125 * 2 ^ 35) ≤ℤ b
    → a <ℤ b
between q a b low high = omega (
  arith,
  (neg_parts (q * 1220703125 * 2 ^ 35)).0,
  (neg_parts (q * 1220703125 * 2 ^ 35)).1,
  (neg_parts ((2 * q + 1) * 1220703125 * 2 ^ 34)).0,
  (neg_parts ((2 * q + 1) * 1220703125 * 2 ^ 34)).1,
)

module _ ⦃rt : Runtime⦄ where
  abbrev double_of : ℕ → ℤ
  double_of p = rt.host.double ((pos 0 -ℤ pos p) *ℤ pos (10 ^ 13 * second))

  exact_share : (p : ℕ) → p < 2 ^ 20 → double_of p ≡ neg (p * 1220703125 * 2 ^ 35)
  exact_share p small =
      rw (double_of, zero-minus p)
        (rw (neg-times p (10 ^ 13 * second)) (
          rw (regroup p)
            (rt.host.double_exact_neg (p * 1220703125) 35 (omega arith) (omega arith))))
    where
      regroup : (p : ℕ) → p * (10 ^ 13 * second) ≡ p * 1220703125 * 2 ^ 35
      regroup p = omega arith

  -- The priority's share of a score is a double.
  score_of_priority :
      (p t : ℕ)
      → p < 2 ^ 20
      → queue_score (pos p) t ≡ rt.host.double (neg (p * 1220703125 * 2 ^ 35) +ℤ pos t)
  unfolding queue_score
  score_of_priority p t small =
      let share : double_of p ≡ neg (p * 1220703125 * 2 ^ 35) = exact_share p small in
      rw (ap (λ x. rt.host.double (x +ℤ pos t)) share)

  -- Of two jobs that were enqueued at any times up to 10 ^ 12 seconds, the one of the higher
  -- priority has the lower score, for priorities from 0 to 2 ^ 20 - 1.
  pub higher_priority_first :
      (p q t u : ℕ)
      → q < p
      → p < 2 ^ 20
      → t ≤ 10 ^ 12 * second
      → queue_score (pos p) t <ℤ queue_score (pos q) u
  higher_priority_first p q t u lt small early =
      let half = neg ((2 * q + 1) * 1220703125 * 2 ^ 34) in
      let low = neg (p * 1220703125 * 2 ^ 35) +ℤ pos t in
      let high = neg (q * 1220703125 * 2 ^ 35) +ℤ pos u in
      let below : low ≤ℤ half = below_half p q t lt small early in
      let above : neg (q * 1220703125 * 2 ^ 35) ≤ℤ high = later q u in
      let half_exact =
        rt.host.double_exact_neg ((2 * q + 1) * 1220703125) 34 (omega arith) (omega arith) in
      let base_exact = rt.host.double_exact_neg (q * 1220703125) 35 (omega arith) (omega arith) in
      let d₁ = rt.host.double_mono low half below in
      let d₂ = rt.host.double_mono (neg (q * 1220703125 * 2 ^ 35)) high above in
      rw (score_of_priority p t small, score_of_priority q u (omega arith))
        (between q _ _ (rw half_exact at d₁) (rw base_exact at d₂))

  score_at_zero : (t : ℕ) → t < 2 ^ 53 → queue_score (pos 0) t ≡ pos t
  score_at_zero t small =
      let plain : neg (0 * 1220703125 * 2 ^ 35) +ℤ pos t ≡ pos (t * 2 ^ 0) =
        eq_of_parts _ _ (omega (arith, +ℤ_parts (neg (0 * 1220703125 * 2 ^ 35)) (pos t))) in
      let whole : t * 2 ^ 0 ≡ t = omega arith in
      rw (score_of_priority 0 t (omega arith))
        (rw plain (rt.host.double_exact t 0 small (omega arith) ∙ ap pos whole))

  -- With the scores of `enqueue`, priorities from 0 to 2 ^ 20 - 1 and times up to 10 ^ 12 seconds,
  -- no worker is handed a job while one of a higher priority waits in the queue.
  pub pop_respects_priority :
      (k j : Text) (p q t u : ℕ) (w w' : World)
      → rt.sorted_set.score w.queue k ≡ some (queue_score (pos q) u)
      → rt.sorted_set.score w.queue j ≡ some (queue_score (pos p) t)
      → p < 2 ^ 20
      → t ≤ 10 ^ 12 * second
      → dequeue_one w ≡ (some k, w')
      → p ≤ q
  unfolding dequeue_one
  pop_respects_priority k j p q t u w w' ek ej small early popped =
      elim (Option-cases (rt.sorted_set.zpopmin w.queue)) [
        | inl e ↦
            absurd (nothing (ap (λ (r : Option Text × World). r.0) (rw (dequeue_one, e) at popped)))
        | inr ((i, rest), e) ↦
            let same : some i ≡ some k =
              ap (λ (r : Option Text × World). r.0) (rw (dequeue_one, e) at popped) in
            let (v, ev, lowest, left) = rt.sorted_set.zpopmin_some w.queue rest i e in
            elim (Bool-cases (ltb q p)) [
              | inr fine ↦ ground arith
              | inl lt ↦
                  let first = higher_priority_first p q t u (ground arith) small early in
                  let low = lowest j (queue_score (pos p) t) ej in
                  let own : v ≡ queue_score (pos q) u = ground (arith, same, ev, ek) in
                  absurd (contradiction v (queue_score (pos p) t) low (rw own first))
            ]
      ]
    where
      nothing : ¬ (none ≡ some k)
      nothing h = cc

      contradiction : (a b : ℤ) → a ≤ℤ b → ¬ (b <ℤ a)
      contradiction a b h h' = omega arith

  -- At priority 0, the default, a job that was enqueued earlier has the lower score, up to the year
  -- 2038, when times reach 2 ^ 53 ticks.
  pub fifo_at_priority_zero :
      (t u : ℕ) → t < u → u < 2 ^ 53 → queue_score (pos 0) t <ℤ queue_score (pos 0) u
  fifo_at_priority_zero t u lt small =
      rw (score_at_zero t (omega arith), score_at_zero u small) (omega arith)
