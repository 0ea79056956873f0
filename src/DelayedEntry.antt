-- ===== src/DelayedEntry.antt =====
-- The members of the delayed set: `f"{job_id}:{priority}"` and its parts by `rpartition(":")` and
-- `int(…)` (backend/app/scheduler/lease_manager.py).
use ci_system.Prelude.{
  ℕ, zero, suc, ◌+◌, ◌-◌, ◌*◌, ◌/◌, ◌%◌, ◌&&◌, Text, Option, none, some, [], ◌∷◌, ◌++◌, ltb, leb,
  ◌==◌, if◌then◌else◌,
}
use ci_system.Prelude.Int.{ℤ, pos, negsuc, neg}

-- The decimal digits of a number, in front of `acc`. The fuel is more than the number has digits.
unfoldable pub show_digits : ℕ → ℕ → Text → Text
show_digits zero n acc = acc
show_digits (suc fuel) n acc =
    let rest = show_digits fuel (n / 10) ((48 + n % 10) ∷ acc) in
    if ltb n 10 then (48 + n) ∷ acc else rest

-- `str(priority)`
unfoldable pub show_int : ℤ → Text
unfolding show_digits
show_int (pos n) = show_digits (suc n) n []
show_int (negsuc n) = b'-' ∷ show_digits (suc (suc n)) (suc n) []

unfoldable pub delayed_entry : Text → ℤ → Text
unfolding show_int
delayed_entry job_id priority = job_id ++ (b':' ∷ show_int priority)

unfoldable pub read_digits : ℕ → Text → Option ℕ
read_digits acc [] = some acc
read_digits acc (c ∷ cs) =
    if leb 48 c && leb c 57 then read_digits (acc * 10 + (c - 48)) cs else none

unfoldable pub read_nat : Text → Option ℕ
unfolding read_digits
read_nat [] = none
read_nat (c ∷ cs) = read_digits 0 (c ∷ cs)

-- `int(…)` of plain decimal text, none for a `ValueError`. Python also takes blanks, underscores
-- and a plus sign, which no entry has.
unfoldable pub read_int : Text → Option ℤ
unfolding read_nat
read_int [] = none
read_int (c ∷ cs) =
    if c == b'-'
    then (elim (read_nat cs) [ none ↦ none | some n ↦ some (neg n) ])
    else (elim (read_nat (c ∷ cs)) [ none ↦ none | some n ↦ some (pos n) ])

-- The parts around the last separator.
unfoldable pub split_last : ℕ → Text → Option (Text × Text)
split_last sep [] = none
split_last sep (c ∷ cs) = elim (split_last sep cs) [
  | some (before, after) ↦ some (c ∷ before, after)
  | none ↦ if c == sep then some ([], cs) else none
]

-- `entry.rpartition(":")`, without the separator itself.
unfoldable pub rpartition : Text → Text × Text
unfolding split_last
rpartition entry = elim (split_last b':' entry) [ some parts ↦ parts | none ↦ ([], entry) ]
