-- ===== src/Runtime/Database.antt =====
-- The database behind SQLAlchemy, which the program calls and does not implement: tables of rows
-- under a primary key. `get` is `db.get`, `put` writes the row of a key (`db.add` with a flush, or
-- an assignment to a loaded object), `select` is `db.query(…).filter(…).all()` and `latest` is
-- `….order_by(… .desc()).first()`; a query returns keys.
use ci_system.Prelude.{
  ℕ, ◌≤◌, ◌≡◌, Bool, true, false, Text, text_eq, Option, none, some, List, if◌then◌else◌,
}
use ci_system.Prelude.Lists.{Occurs, Distinct}

pub record Database : Type 1 where
  pub Table : Type 0 → Type 0
  pub empty : {R : Type 0} → Table R
  pub get : {R : Type 0} → Table R → Text → Option R
  pub put : {R : Type 0} → Table R → Text → R → Table R
  pub select : {R : Type 0} → (R → Bool) → Table R → List Text
  pub latest : {R : Type 0} → (R → Bool) → (R → ℕ) → Table R → Option Text
  pub get_empty : {R : Type 0} (k : Text) → get (empty {R = R}) k ≡ none
  pub get_put :
      {R : Type 0} (t : Table R) (k j : Text) (r : R)
      → get (put t k r) j ≡ (if text_eq k j then some r else get t j)
  pub select_sound :
      {R : Type 0} (p : R → Bool) (t : Table R) (k : Text)
      → Occurs k (select p t)
      → (r : R) × (get t k ≡ some r) × (p r ≡ true)
  pub select_complete :
      {R : Type 0} (p : R → Bool) (t : Table R) (k : Text) (r : R)
      → get t k ≡ some r
      → p r ≡ true
      → Occurs k (select p t)
  pub select_distinct : {R : Type 0} (p : R → Bool) (t : Table R) → Distinct (select p t)
  pub latest_none :
      {R : Type 0} (p : R → Bool) (key : R → ℕ) (t : Table R) (k : Text) (r : R)
      → latest p key t ≡ none
      → get t k ≡ some r
      → p r ≡ false
  pub latest_some :
      {R : Type 0} (p : R → Bool) (key : R → ℕ) (t : Table R) (k : Text)
      → latest p key t ≡ some k
      → (r : R) × (get t k ≡ some r)
        × (p r ≡ true)
        × ((j : Text) (s : R) → get t j ≡ some s → p s ≡ true → key s ≤ key r)
