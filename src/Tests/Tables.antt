-- ===== src/Tests/Tables.antt =====
-- A database whose tables are association lists: the laws of `Database` can be met.
use ci_system.Prelude.{
  ℕ, ◌≤◌, ◌≡◌, ◌≢◌, refl, inl, inr, Bool, true, false, Text, text_eq, text_eq_iff, Option, none,
  some, List, [], ◌∷◌, arith, if◌then◌else◌,
}
use ci_system.Prelude.Int.{ℤ, neg}
use ci_system.Prelude.Lists.{Occurs, Distinct}
use ci_system.Runtime.Database.{Database}
use ci_system.Tests.Keys.{
  without, Occurs-without, without-Occurs, without-Distinct, lowest, lowest-none, lowest-IsLowest,
  IsLowest,
}

abbrev pub Rows : Type 0 → Type 0
Rows R = List (Text × R)

module _ {R : Type 0} where
  abbrev pub find : Rows R → Text → Option R
  find [] k = none
  find ((j, r) ∷ t) k = if text_eq j k then some r else find t k

  abbrev pub write : Rows R → Text → R → Rows R
  write [] k r = (k, r) ∷ []
  write ((j, s) ∷ t) k r = if text_eq j k then (k, r) ∷ t else (j, s) ∷ write t k r

  -- The keys of the rows that satisfy the test; a key counts by its first row.
  abbrev pub keys_of : (R → Bool) → Rows R → List Text
  keys_of p [] = []
  keys_of p ((k, r) ∷ t) =
      let rest = keys_of p t in if p r then k ∷ without k rest else without k rest

  pub find-write :
      (t : Rows R) (k j : Text) (r : R)
      → find (write t k r) j ≡ (if text_eq k j then some r else find t j)
  find-write [] k j r = refl
  find-write ((i, s) ∷ t) k j r =
      ground (arith, find-write t k j r, text_eq_iff k j, text_eq_iff i k, text_eq_iff i j)

  abbrev pub Found : (R → Bool) → Rows R → Text → Type 0
  Found p t k = (r : R) × (find t k ≡ some r) × (p r ≡ true)

  deeper :
      (p : R → Bool) (i k : Text) (s : R) (t : Rows R)
      → i ≢ k
      → Found p t k
      → Found p ((i, s) ∷ t) k
  deeper p i k s t other (r, e, h) = (r, ground (arith, text_eq_iff i k), h)

  pub keys_sound : (p : R → Bool) (t : Rows R) (k : Text) → Occurs k (keys_of p t) → Found p t k
  keys_sound p [] k o = absurd o
  keys_sound p ((i, s) ∷ t) k o = go (p s) refl (keys_sound p t k) o
    where
      go :
          (b : Bool)
          → p s ≡ b
          → (Occurs k (keys_of p t) → Found p t k)
          → Occurs k (if b then i ∷ without i (keys_of p t) else without i (keys_of p t))
          → Found p ((i, s) ∷ t) k
      go true e ih (inl here) = (s, ground (arith, text_eq_iff i k), e)
      go true e ih (inr o) =
          let (o', other) = Occurs-without i k (keys_of p t) o in deeper p i k s t other (ih o')
      go false e ih o =
          let (o', other) = Occurs-without i k (keys_of p t) o in deeper p i k s t other (ih o')

  pub keys_complete :
      (p : R → Bool) (t : Rows R) (k : Text) (r : R)
      → find t k ≡ some r
      → p r ≡ true
      → Occurs k (keys_of p t)
  keys_complete p [] k r e h = cc
  keys_complete p ((i, s) ∷ t) k r e h = go (text_eq i k) refl (p s) refl (keys_complete p t k r)
    where
      go :
          (b : Bool)
          → text_eq i k ≡ b
          → (d : Bool) → p s ≡ d
          → (find t k ≡ some r → p r ≡ true → Occurs k (keys_of p t))
          → Occurs k (if d then i ∷ without i (keys_of p t) else without i (keys_of p t))
      go true same true hit ih = inl (ground (arith, text_eq_iff i k))
      go true same false miss ih = absurd (ground arith)
      go false other true hit ih =
          inr (
            without-Occurs i k (keys_of p t) (ground (arith, text_eq_iff i k))
              (ih (ground arith) h))
      go false other false miss ih =
          without-Occurs i k (keys_of p t) (ground (arith, text_eq_iff i k)) (ih (ground arith) h)

  pub keys-Distinct : (p : R → Bool) (t : Rows R) → Distinct (keys_of p t)
  keys-Distinct p [] = tt
  keys-Distinct p ((i, s) ∷ t) = go (p s) (keys-Distinct p t)
    where
      go :
          (b : Bool)
          → Distinct (keys_of p t)
          → Distinct (if b then i ∷ without i (keys_of p t) else without i (keys_of p t))
      go true d =
          (λ o. (Occurs-without i i (keys_of p t) o).1 refl, without-Distinct i (keys_of p t) d)
      go false d = without-Distinct i (keys_of p t) d

  -- The negative of the key by which rows are ordered.
  abbrev pub rank : (R → ℕ) → Option R → ℤ
  rank key none = neg 0
  rank key (some r) = neg (key r)

  abbrev pub newest : (R → Bool) → (R → ℕ) → Rows R → Option Text
  newest p key t = lowest (λ k. rank key (find t k)) (keys_of p t)

  pub none_found :
      (p : R → Bool) (key : R → ℕ) (t : Rows R) (k : Text) (r : R)
      → newest p key t ≡ none
      → find t k ≡ some r
      → p r ≡ false
  none_found p key t k r e er = go (p r) refl
    where
      go : (b : Bool) → p r ≡ b → b ≡ false
      go true h =
          absurd
            (lowest-none (λ k. rank key (find t k)) (keys_of p t) k e (keys_complete p t k r er h))
      go false h = refl

  pub newest_some :
      (p : R → Bool) (key : R → ℕ) (t : Rows R) (k : Text)
      → newest p key t ≡ some k
      → (r : R) × (find t k ≡ some r)
        × (p r ≡ true)
        × ((j : Text) (s : R) → find t j ≡ some s → p s ≡ true → key s ≤ key r)
  newest_some p key t k e =
      go (newest p key t) e (lowest-IsLowest (λ k. rank key (find t k)) (keys_of p t))
    where
      go :
          (o : Option Text)
          → o ≡ some k
          → IsLowest (λ k. rank key (find t k)) (keys_of p t) o
          → (r : R) × (find t k ≡ some r)
            × (p r ≡ true)
            × ((j : Text) (s : R) → find t j ≡ some s → p s ≡ true → key s ≤ key r)
      go none e' h = cc
      go (some i) e' (o, least) =
          let (r, er, hr) = keys_sound p t i o in
          (
            r,
            ground arith,
            hr,
            λ j s es hs. let h = least j (keys_complete p t j s es hs) in ground arith,
          )

-- Association lists are such a database.
abbrev pub list_database : Database
list_database = record {
  Table = Rows;
  empty = [];
  get = find;
  put = write;
  select = keys_of;
  latest = newest;
  get_empty = λ k. refl;
  get_put = find-write;
  select_sound = keys_sound;
  select_complete = keys_complete;
  select_distinct = keys-Distinct;
  latest_none = λ p key t k r e er. none_found p key t k r e er;
  latest_some = newest_some;
}
