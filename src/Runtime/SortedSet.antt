-- ===== src/Runtime/SortedSet.antt =====
-- The sorted sets of the Redis server: ZADD, ZPOPMIN, ZRANGEBYSCORE and ZREM, as documented.
-- `score` is ZSCORE, by which the laws are stated; the program does not call it.
use ci_system.Prelude.{◌≡◌, Text, text_eq, Option, none, some, List, if◌then◌else◌}
use ci_system.Prelude.Lists.{Occurs, Distinct}
use ci_system.Prelude.Int.{ℤ, ◌≤ℤ◌}

pub record SortedSet : Type 1 where
  pub Zset : Type 0
  pub empty : Zset
  pub score : Zset → Text → Option ℤ
  pub zadd : Zset → Text → ℤ → Zset
  pub zrem : Zset → Text → Zset
  pub zpopmin : Zset → Option (Text × Zset)
  pub zrangebyscore : Zset → ℤ → ℤ → List Text
  pub score_empty : (k : Text) → score empty k ≡ none
  -- A member that is there already is only scored anew.
  pub score_zadd :
      (z : Zset) (k j : Text) (v : ℤ)
      → score (zadd z k v) j ≡ (if text_eq k j then some v else score z j)
  pub score_zrem :
      (z : Zset) (k j : Text) → score (zrem z k) j ≡ (if text_eq k j then none else score z j)
  pub zpopmin_none : (z : Zset) (k : Text) → zpopmin z ≡ none → score z k ≡ none
  -- What is popped has the lowest score, and alone is removed.
  pub zpopmin_some :
      (z z' : Zset) (k : Text)
      → zpopmin z ≡ some (k, z')
      → (v : ℤ) × (score z k ≡ some v)
        × ((j : Text) (u : ℤ) → score z j ≡ some u → v ≤ℤ u)
        × ((j : Text) → score z' j ≡ (if text_eq k j then none else score z j))
  pub zrangebyscore_sound :
      (z : Zset) (lo hi : ℤ) (k : Text)
      → Occurs k (zrangebyscore z lo hi)
      → (v : ℤ) × (score z k ≡ some v) × (lo ≤ℤ v) × (v ≤ℤ hi)
  pub zrangebyscore_complete :
      (z : Zset) (lo hi : ℤ) (k : Text) (v : ℤ)
      → score z k ≡ some v
      → lo ≤ℤ v
      → v ≤ℤ hi
      → Occurs k (zrangebyscore z lo hi)
  pub zrangebyscore_distinct : (z : Zset) (lo hi : ℤ) → Distinct (zrangebyscore z lo hi)
