-- ===== src/Tests/Scores.antt =====
-- A sorted set as an association list: the laws of `SortedSet` can be met.
use ci_system.Prelude.{
  ◌≡◌, refl, Bool, true, false, ◌&&◌, Text, text_eq, text_eq_iff, Option, none, some, List, [], ◌∷◌,
  arith, if◌then◌else◌,
}
use ci_system.Prelude.Int.{ℤ, pos, ◌≤ℤ◌, ltb_ℤ}
use ci_system.Prelude.Lists.{Occurs}
use ci_system.Runtime.SortedSet.{SortedSet}
use ci_system.Tests.Keys.{lowest, lowest-none, lowest-IsLowest, IsLowest}
use ci_system.Tests.Tables.{
  Rows, find, write, find-write, keys_of, keys_sound, keys_complete, keys-Distinct,
}

abbrev pub Scores : Type 0
Scores = Rows ℤ

-- Every entry of the member is taken out.
abbrev pub remove : Scores → Text → Scores
remove [] k = []
remove ((j, v) ∷ z) k = let rest = remove z k in if text_eq j k then rest else (j, v) ∷ rest

pub find-remove :
    (z : Scores) (k j : Text) → find (remove z k) j ≡ (if text_eq k j then none else find z j)
find-remove [] k j = ground arith
find-remove ((i, v) ∷ z) k j =
    ground (arith, find-remove z k j, text_eq_iff i k, text_eq_iff i j, text_eq_iff k j)

abbrev pub score_or_zero : Option ℤ → ℤ
score_or_zero none = pos 0
score_or_zero (some v) = v

abbrev any_score : ℤ → Bool
any_score v = true

abbrev pub first_member : Scores → Option Text
first_member z = lowest (λ k. score_or_zero (find z k)) (keys_of any_score z)

abbrev popped : Scores → Option Text → Option (Text × Scores)
popped z none = none
popped z (some k) = some (k, remove z k)

abbrev pub pop_lowest : Scores → Option (Text × Scores)
pop_lowest z = popped z (first_member z)

abbrev leb_ℤ : ℤ → ℤ → Bool
leb_ℤ a b = if ltb_ℤ b a then false else true

abbrev pub in_range : ℤ → ℤ → ℤ → Bool
in_range lo hi v = leb_ℤ lo v && leb_ℤ v hi

abbrev pub range_keys : Scores → ℤ → ℤ → List Text
range_keys z lo hi = keys_of (in_range lo hi) z

pub pop_none : (z : Scores) (k : Text) → pop_lowest z ≡ none → find z k ≡ none
pop_none z k e = go (find z k) refl
  where
    empty : first_member z ≡ none
    empty = ground arith

    go : (o : Option ℤ) → find z k ≡ o → o ≡ none
    go none h = refl
    go (some v) h = absurd (
        lowest-none (λ k. score_or_zero (find z k)) (keys_of any_score z) k empty
          (keys_complete any_score z k v h refl))

pub pop_some :
    (z z' : Scores) (k : Text)
    → pop_lowest z ≡ some (k, z')
    → (v : ℤ) × (find z k ≡ some v)
      × ((j : Text) (u : ℤ) → find z j ≡ some u → v ≤ℤ u)
      × ((j : Text) → find z' j ≡ (if text_eq k j then none else find z j))
pop_some z z' k e =
    go (first_member z) (lowest-IsLowest (λ k. score_or_zero (find z k)) (keys_of any_score z)) e
  where
    go :
        (o : Option Text)
        → IsLowest (λ k. score_or_zero (find z k)) (keys_of any_score z) o
        → popped z o ≡ some (k, z')
        → (v : ℤ) × (find z k ≡ some v)
          × ((j : Text) (u : ℤ) → find z j ≡ some u → v ≤ℤ u)
          × ((j : Text) → find z' j ≡ (if text_eq k j then none else find z j))
    go none h e' = cc
    go (some i) (there, least) e' =
        let (v, ev, hv) = keys_sound any_score z i there in
        (
          v,
          ground arith,
          λ j u ej. let h = least j (keys_complete any_score z j u ej refl) in ground arith,
          λ j. ground (arith, find-remove z k j),
        )

pub range_sound :
    (z : Scores) (lo hi : ℤ) (k : Text)
    → Occurs k (range_keys z lo hi)
    → (v : ℤ) × (find z k ≡ some v) × (lo ≤ℤ v) × (v ≤ℤ hi)
range_sound z lo hi k o =
    let (v, e, h) = keys_sound (in_range lo hi) z k o in (v, e, ground arith, ground arith)

pub range_complete :
    (z : Scores) (lo hi : ℤ) (k : Text) (v : ℤ)
    → find z k ≡ some v
    → lo ≤ℤ v
    → v ≤ℤ hi
    → Occurs k (range_keys z lo hi)
range_complete z lo hi k v e low high = keys_complete (in_range lo hi) z k v e (ground arith)

abbrev pub list_sorted_set : SortedSet
list_sorted_set = record {
  Zset = Scores;
  empty = [];
  score = find;
  zadd = write;
  zrem = remove;
  zpopmin = pop_lowest;
  zrangebyscore = range_keys;
  score_empty = λ k. refl;
  score_zadd = find-write;
  score_zrem = find-remove;
  zpopmin_none = pop_none;
  zpopmin_some = pop_some;
  zrangebyscore_sound = range_sound;
  zrangebyscore_complete = range_complete;
  zrangebyscore_distinct = λ z lo hi. keys-Distinct (in_range lo hi) z;
}
