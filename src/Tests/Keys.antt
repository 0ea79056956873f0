-- ===== src/Tests/Keys.antt =====
-- Lists of keys, for the concrete tables and sorted sets.
use ci_system.Prelude.{
  ◌≡◌, ◌≢◌, refl, inl, inr, Bool, true, false, Text, text_eq, text_eq_iff, Option, none, some, List,
  [], ◌∷◌, arith, if◌then◌else◌,
}
use mathlib.Core.Path.{subst}
use ci_system.Prelude.Lists.{Occurs, Distinct}
use ci_system.Prelude.Int.{ℤ, ◌≤ℤ◌, ltb_ℤ}

abbrev pub without : Text → List Text → List Text
without k [] = []
without k (j ∷ ks) = let rest = without k ks in if text_eq j k then rest else j ∷ rest

Occurs-either :
    (b : Bool) (k j i : Text) (ks : List Text)
    → text_eq i k ≡ b
    → (Occurs j (without k ks) → Occurs j ks × (k ≢ j))
    → Occurs j (if b then without k ks else i ∷ without k ks)
    → Occurs j (i ∷ ks) × (k ≢ j)
Occurs-either true k j i ks e ih o = (inr (ih o).0, (ih o).1)
Occurs-either false k j i ks e ih (inl here) = (inl here, ground (arith, text_eq_iff i k))
Occurs-either false k j i ks e ih (inr o) = (inr (ih o).0, (ih o).1)

pub Occurs-without : (k j : Text) (ks : List Text) → Occurs j (without k ks) → Occurs j ks × (k ≢ j)
Occurs-without k j [] o = absurd o
Occurs-without k j (i ∷ ks) o = Occurs-either (text_eq i k) k j i ks refl (Occurs-without k j ks) o

Occurs-kept :
    (b : Bool) (k j i : Text) (ks : List Text)
    → text_eq i k ≡ b
    → k ≢ j
    → (Occurs j ks → Occurs j (without k ks))
    → Occurs j (i ∷ ks)
    → Occurs j (if b then without k ks else i ∷ without k ks)
Occurs-kept true k j i ks e other ih (inl here) = absurd (ground (arith, text_eq_iff i k))
Occurs-kept true k j i ks e other ih (inr o) = ih o
Occurs-kept false k j i ks e other ih (inl here) = inl here
Occurs-kept false k j i ks e other ih (inr o) = inr (ih o)

pub without-Occurs : (k j : Text) (ks : List Text) → k ≢ j → Occurs j ks → Occurs j (without k ks)
without-Occurs k j [] other o = absurd o
without-Occurs k j (i ∷ ks) other o =
    Occurs-kept (text_eq i k) k j i ks refl other (without-Occurs k j ks other) o

Distinct-either :
    (b : Bool) (k i : Text) (ks : List Text)
    → ¬ Occurs i ks
    → Distinct (without k ks)
    → Distinct (if b then without k ks else i ∷ without k ks)
Distinct-either true k i ks new d = d
Distinct-either false k i ks new d = (λ o. new (Occurs-without k i ks o).0, d)

pub without-Distinct : (k : Text) (ks : List Text) → Distinct ks → Distinct (without k ks)
without-Distinct k [] d = tt
without-Distinct k (i ∷ ks) (new, d) =
    Distinct-either (text_eq i k) k i ks new (without-Distinct k ks d)

-- The key of the lowest score.
abbrev lower : (Text → ℤ) → Text → Option Text → Text
lower f k none = k
lower f k (some j) = if ltb_ℤ (f j) (f k) then j else k

abbrev pub lowest : (Text → ℤ) → List Text → Option Text
lowest f [] = none
lowest f (k ∷ ks) = some (lower f k (lowest f ks))

pub lowest-none : (f : Text → ℤ) (ks : List Text) (j : Text) → lowest f ks ≡ none → ¬ Occurs j ks
lowest-none f [] j e o = o
lowest-none f (k ∷ ks) j e o = cc

abbrev pub IsLowest : (Text → ℤ) → List Text → Option Text → Type 0
IsLowest f ks none = ks ≡ []
IsLowest f ks (some k) = Occurs k ks × ((j : Text) → Occurs j ks → f k ≤ℤ f j)

lower-IsLowest :
    (f : Text → ℤ) (k : Text) (ks : List Text) (r : Option Text)
    → IsLowest f ks r
    → IsLowest f (k ∷ ks) (some (lower f k r))
lower-IsLowest f k ks none e = (inl refl, alone)
  where
    alone : (j : Text) → Occurs j (k ∷ ks) → f k ≤ℤ f j
    alone j (inl here) = rw here (omega arith)
    alone j (inr o) = absurd (subst (Occurs j) e o)
lower-IsLowest f k ks (some i) (there, least) = choose (ltb_ℤ (f i) (f k)) refl
  where
    choose : (b : Bool) → ltb_ℤ (f i) (f k) ≡ b → IsLowest f (k ∷ ks) (some (if b then i else k))
    choose true e = (inr there, below)
      where
        below : (j : Text) → Occurs j (k ∷ ks) → f i ≤ℤ f j
        below j (inl here) = rw here (ground arith)
        below j (inr o) = least j o
    choose false e = (inl refl, below)
      where
        below : (j : Text) → Occurs j (k ∷ ks) → f k ≤ℤ f j
        below j (inl here) = rw here (omega arith)
        below j (inr o) = let h = least j o in ground arith

pub lowest-IsLowest : (f : Text → ℤ) (ks : List Text) → IsLowest f ks (lowest f ks)
lowest-IsLowest f [] = refl
lowest-IsLowest f (k ∷ ks) = lower-IsLowest f k ks (lowest f ks) (lowest-IsLowest f ks)
