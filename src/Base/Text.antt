-- ===== src/Base/Text.antt =====
-- Strings as lists of character codes: equality without case, and numbers in decimal.
use Prim.Native.Nat.{ℕ, zero, suc, ◌+◌, ◌-◌, ◌*◌, ◌/◌, ◌%◌, ◌<◌}
use mathlib.Core.Bool.{Bool, true, false, ◌&&◌}
use mathlib.Core.List.{List, [], ◌∷◌, ◌++◌}
use mathlib.Core.Logic.{inl, inr}
use mathlib.Core.Option.{Option, none, some}
use mathlib.Core.Path.{◌≡◌, refl, ◌∙◌}
use native.Mathlib.Omega.{arith}
use soapy_sidekiq.Base.Tests.{ltb, leb, ◌==◌, if◌then◌else◌, Bool-cases}

abbrev pub Text : Type 0
Text = List ℕ

-- `std::tolower` of the "C" locale.
unfoldable pub to_lower : ℕ → ℕ
to_lower c = if leb 65 c && leb c 90 then c + 32 else c

-- `==` of two strings.
unfoldable pub is_same : Text → Text → Bool
is_same [] [] = true
is_same [] (d ∷ ds) = false
is_same (c ∷ cs) [] = false
is_same (c ∷ cs) (d ∷ ds) = c == d && is_same cs ds

-- `equalsIgnoreCase`: strings of two lengths differ.
unfoldable pub equals_ignore_case : Text → Text → Bool
equals_ignore_case [] [] = true
equals_ignore_case [] (d ∷ ds) = false
equals_ignore_case (c ∷ cs) [] = false
equals_ignore_case (c ∷ cs) (d ∷ ds) = to_lower c == to_lower d && equals_ignore_case cs ds

-- `std::to_string` of an unsigned number, with more fuel than it has digits.
unfoldable pub digits_of : ℕ → ℕ → Text
digits_of zero n = []
digits_of (suc fuel) n =
    let rest = digits_of fuel (n / 10) in
    if ltb n 10 then (48 + n) ∷ [] else rest ++ ((48 + n % 10) ∷ [])

abbrev pub to_decimal : ℕ → Text
to_decimal n = digits_of (suc n) n

-- The number that all of the characters spell, after `read` from those before.
unfoldable pub from_digits : Text → ℕ → Option ℕ
from_digits [] read = some read
from_digits (c ∷ cs) read =
    let rest = from_digits cs (read * 10 + (c - 48)) in if leb 48 c && leb c 57 then rest else none

from_digits-append :
    (cs ds : Text) (a n : ℕ)
    → from_digits cs a ≡ some n
    → from_digits (cs ++ ds) a ≡ from_digits ds n
unfolding from_digits
from_digits-append [] ds a n h = cc h
from_digits-append (c ∷ cs) ds a n h = elim (Bool-cases (leb 48 c && leb c 57)) [
  | inl d ↦ rw d (from_digits-append cs ds (a * 10 + (c - 48)) n (rw d at h))
  | inr d ↦ cc (rw d at h)
]

from_digits-digits_of : (fuel n : ℕ) → n < fuel → from_digits (digits_of fuel n) 0 ≡ some n
unfolding digits_of from_digits
from_digits-digits_of zero n h = absurd (omega arith)
from_digits-digits_of (suc fuel) n h = elim (Bool-cases (ltb n 10)) [
  | inl small ↦ ground arith
  | inr large ↦ rw large (
      from_digits-append (digits_of fuel (n / 10)) ((48 + n % 10) ∷ []) 0 (n / 10)
        (from_digits-digits_of fuel (n / 10) (ground arith))
      ∙ ground arith)
]

-- A printed number is read back.
pub from_digits-to_decimal : (n : ℕ) → from_digits (to_decimal n) 0 ≡ some n
from_digits-to_decimal n = from_digits-digits_of (suc n) n (omega arith)

abbrev pub is_empty : Text → Bool
is_empty [] = true
is_empty (c ∷ cs) = false

append-is_empty : (cs : Text) (c : ℕ) → is_empty (cs ++ (c ∷ [])) ≡ false
append-is_empty [] c = refl
append-is_empty (d ∷ cs) c = refl

pub to_decimal-is_empty : (n : ℕ) → is_empty (to_decimal n) ≡ false
unfolding digits_of
to_decimal-is_empty n = elim (Bool-cases (ltb n 10)) [
  | inl small ↦ rw small refl
  | inr large ↦ rw large (append-is_empty (digits_of n (n / 10)) (48 + n % 10))
]
