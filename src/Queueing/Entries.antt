-- ===== src/Queueing/Entries.antt =====
-- Writing and reading the members of the delayed set (backend/app/scheduler/lease_manager.py).
use ci_system.Prelude.{
  ℕ, zero, suc, ◌+◌, ◌-◌, ◌*◌, ◌/◌, ◌%◌, ◌≤◌, ◌<◌, ◌≡◌, refl, Text, none, some, [], ◌∷◌, ◌++◌, inl,
  inr, arith, true, false, Bool-cases, ltb, leb, ◌==◌, ap, ◌∙◌,
}
use ci_system.Prelude.Int.{ℤ, pos, negsuc}
use ci_system.DelayedEntry.{
  show_digits, show_int, delayed_entry, read_digits, read_nat, read_int, split_last, rpartition,
}

not_below : {n : ℕ} → ¬ (n < 0)
not_below h = omega arith

is_digit : (n : ℕ) → n < 10 → (leb 48 (48 + n) ≡ true) × (leb (48 + n) 57 ≡ true)
is_digit n h = (ground arith, ground arith)

read_digit :
    (m n : ℕ) (cs : Text) → n < 10 → read_digits m ((48 + n) ∷ cs) ≡ read_digits (m * 10 + n) cs
unfolding read_digits
read_digit m n cs h =
    let (low, high) = is_digit n h in
    rw (read_digits, low) (rw high (ap (λ x. read_digits (m * 10 + x) cs) (back n)))
  where
    back : (n : ℕ) → 48 + n - 48 ≡ n
    back n = omega arith

read-show_digits :
    (fuel n : ℕ) (acc : Text)
    → n < fuel
    → read_digits 0 (show_digits fuel n acc) ≡ read_digits n acc
unfolding show_digits read_digits
read-show_digits zero n acc h = absurd (not_below h)
read-show_digits (suc fuel) n acc h = elim (Bool-cases (ltb n 10)) [
  | inl small ↦
      rw (show_digits, small)
        (read_digit 0 n acc (ground arith) ∙ ap (λ x. read_digits x acc) (plain n))
  | inr large ↦
      rw (show_digits, large)
        (read-show_digits fuel (n / 10) ((48 + n % 10) ∷ acc) (ground arith)
          ∙ (read_digit (n / 10) (n % 10) acc (omega arith)
              ∙ ap (λ x. read_digits x acc) (parts n)))
]
  where
    parts : (n : ℕ) → n / 10 * 10 + n % 10 ≡ n
    parts n = omega arith

    plain : (n : ℕ) → 0 * 10 + n ≡ n
    plain n = omega arith

no_colon_digit :
    (c : ℕ) (acc : Text) → c < 58 → split_last b':' acc ≡ none → split_last b':' (c ∷ acc) ≡ none
unfolding split_last
no_colon_digit c acc h e =
    let other : (c == b':') ≡ false = ground arith in rw (split_last, e) (rw other refl)

-- A text of digits has no colon in it.
no_colon_digits :
    (fuel n : ℕ) (acc : Text)
    → split_last b':' acc ≡ none
    → split_last b':' (show_digits fuel n acc) ≡ none
unfolding show_digits split_last
no_colon_digits zero n acc h = h
no_colon_digits (suc fuel) n acc h = elim (Bool-cases (ltb n 10)) [
  | inl small ↦ rw (show_digits, small) (no_colon_digit (48 + n) acc (ground arith) h)
  | inr large ↦
      rw (show_digits, large)
        (no_colon_digits fuel (n / 10) _ (no_colon_digit (48 + n % 10) acc (omega arith) h))
]

-- Digits begin with a digit.
show_digits-head :
    (fuel n : ℕ) (acc : Text)
    → n < fuel
    → (c : ℕ) × (cs : Text) × (show_digits fuel n acc ≡ c ∷ cs) × (48 ≤ c)
unfolding show_digits
show_digits-head zero n acc h = absurd (not_below h)
show_digits-head (suc fuel) n acc h = elim (Bool-cases (ltb n 10)) [
  | inl small ↦ rw (show_digits, small) (48 + n, acc, refl, ground arith)
  | inr large ↦ rw (show_digits, large) (show_digits-head fuel (n / 10) _ (ground arith))
]

show_int-no_colon : (p : ℤ) → split_last b':' (show_int p) ≡ none
unfolding show_int split_last
show_int-no_colon (pos n) = no_colon_digits (suc n) n [] refl
show_int-no_colon (negsuc n) =
    no_colon_digit b'-' (show_digits (suc (suc n)) (suc n) []) (omega arith)
      (no_colon_digits (suc (suc n)) (suc n) [] refl)

split_last-append :
    (id ds : Text) → split_last b':' ds ≡ none → split_last b':' (id ++ (b':' ∷ ds)) ≡ some (id, ds)
unfolding split_last
split_last-append [] ds h = rw (split_last, h) refl
split_last-append (c ∷ cs) ds h = rw (split_last, split_last-append cs ds h) refl

read_nat-show_digits : (n : ℕ) → read_nat (show_digits (suc n) n []) ≡ some n
unfolding read_nat read_digits
read_nat-show_digits n =
    let (c, cs, e, low) = show_digits-head (suc n) n [] (omega arith) in
    let digits = read-show_digits (suc n) n [] (omega arith) in rw e (rw e at digits)

-- The decimal text of a priority reads back as the priority.
pub read_int-show_int : (p : ℤ) → read_int (show_int p) ≡ some p
unfolding show_int read_int read_nat
read_int-show_int (pos n) =
    let (c, cs, e, low) = show_digits-head (suc n) n [] (omega arith) in
    let plain : (c == b'-') ≡ false = ground arith in
    let back = read_nat-show_digits n in rw e (rw (read_int, plain) (rw (rw e at back) refl))
read_int-show_int (negsuc n) = rw (read_nat-show_digits (suc n)) refl

-- Every member of the delayed set is taken apart into the job and the priority that it was made of,
-- also when the identifier has colons of its own.
pub delayed_entry_roundtrip :
    (job_id : Text) (priority : ℤ)
    → let (id, text) = rpartition (delayed_entry job_id priority) in
      (id ≡ job_id) × (read_int text ≡ some priority)
unfolding rpartition delayed_entry
delayed_entry_roundtrip job_id priority =
    rw (rpartition, split_last-append job_id (show_int priority) (show_int-no_colon priority))
      (refl, read_int-show_int priority)
