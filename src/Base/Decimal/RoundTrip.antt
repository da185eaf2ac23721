-- ===== src/Base/Decimal/RoundTrip.antt =====
-- Reading a printed number gives the number back.
use Prim.Native.Nat.{ℕ, zero, suc, ◌+◌, ◌-◌, ◌*◌, ◌/◌, ◌%◌, ◌<◌}
use mathlib.Core.Path.{◌≡◌, ◌∙◌, ap}
use mathlib.Core.Logic.{inl, inr}
use mathlib.Core.Bool.{true}
use mathlib.Core.Option.{some}
use mathlib.Core.List.{[], ◌∷◌, ◌++◌}
use native.Mathlib.Omega.{arith}
use canary.Base.Tests.{ltb, Bool-cases}
use canary.Base.Bytes.{Text}
use canary.Base.Decimal.{pos, is_digit, read_digits, set_string, print_digits, decimal}

read_digits-concat :
    (s : Text) (d a n : ℕ)
    → d < 10
    → read_digits a s ≡ some n
    → read_digits a (s ++ (b'0' + d) ∷ []) ≡ some (n * 10 + d)
unfolding read_digits
read_digits-concat [] d a n h p = ground arith
read_digits-concat (c ∷ s) d a n h p =
    ground (arith, read_digits-concat s d (a * 10 + (c - b'0')) n h)

read_digits-print_digits : (fuel n : ℕ) → n < fuel → read_digits 0 (print_digits fuel n) ≡ some n
unfolding print_digits
read_digits-print_digits zero n h = elim h [ ]
read_digits-print_digits (suc fuel) n h = elim (Bool-cases (ltb n 10)) [
  | inl small ↦ rw small (unfold read_digits in ground arith)
  | inr large ↦ rw large (
      read_digits-concat _ (n % 10) 0 (n / 10) (omega arith)
        (read_digits-print_digits fuel (n / 10) (ground arith))
      ∙ ap some (omega arith))
]

-- A text that begins with a digit.
abbrev StartsDigit : Text → Type 0
StartsDigit [] = ⊥
StartsDigit (c ∷ s) = is_digit c ≡ true

StartsDigit-append : (s t : Text) → StartsDigit s → StartsDigit (s ++ t)
StartsDigit-append [] t h = absurd h
StartsDigit-append (c ∷ s) t h = h

print_digits-StartsDigit : (fuel n : ℕ) → n < fuel → StartsDigit (print_digits fuel n)
unfolding print_digits
print_digits-StartsDigit zero n h = elim h [ ]
print_digits-StartsDigit (suc fuel) n h = elim (Bool-cases (ltb n 10)) [
  | inl small ↦ rw small (ground arith)
  | inr large ↦
      rw large (StartsDigit-append _ _ (print_digits-StartsDigit fuel (n / 10) (ground arith)))
]

set_string_of_StartsDigit :
    (s : Text) (n : ℕ) → StartsDigit s → read_digits 0 s ≡ some n → set_string s ≡ some (pos n)
unfolding set_string
set_string_of_StartsDigit [] n h p = absurd h
set_string_of_StartsDigit (c ∷ s) n h p = ground arith

-- `SetString` reads back what `String` prints.
pub set_string-decimal : (n : ℕ) → set_string (decimal n) ≡ some (pos n)
unfolding decimal
set_string-decimal n =
    set_string_of_StartsDigit _ n (print_digits-StartsDigit (suc n) n (omega arith))
      (read_digits-print_digits (suc n) n (omega arith))
