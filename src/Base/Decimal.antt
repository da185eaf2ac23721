-- ===== src/Base/Decimal.antt =====
-- Decimal numbers as math/big and strconv read and print them.
pub mod RoundTrip
use Prim.Native.Nat.{ℕ, zero, suc, ◌+◌, ◌-◌, ◌*◌, ◌/◌, ◌%◌, ◌^◌}
use mathlib.Core.Bool.{Bool, ◌&&◌}
use mathlib.Core.Option.{Option, none, some}
use mathlib.Core.List.{List, [], ◌∷◌, ◌++◌}
use canary.Base.Tests.{ltb, leb, if◌then◌else◌, ◌==◌, nat_eq}
use canary.Base.Bytes.{Text}

-- `big.Int` and Go's signed integers: `negsuc n` is -(n + 1).
pub data ℤ : Type 0 where
  pos : ℕ → ℤ
  negsuc : ℕ → ℤ

abbrev pub is_digit : ℕ → Bool
is_digit c = leb b'0' c && leb c b'9'

-- The digits behind the number read so far; `none` at a byte that is no digit.
unfoldable pub read_digits : ℕ → Text → Option ℕ
read_digits n [] = some n
read_digits n (c ∷ s) = if is_digit c then read_digits (n * 10 + (c - b'0')) s else none

unfoldable pub read_natural : Text → Option ℕ
unfolding read_digits
read_natural [] = none
read_natural (c ∷ s) = read_digits 0 (c ∷ s)

abbrev negate : ℕ → ℤ
negate zero = pos 0
negate (suc n) = negsuc n

-- `new(big.Int).SetString(text, 10)`: an optional sign and at least one digit.
unfoldable pub set_string : Text → Option ℤ
unfolding read_natural
set_string [] = none
set_string (c ∷ s) =
    if c == b'-'
    then elim (read_natural s) [ none ↦ none | some n ↦ some (negate n) ]
    else if c == b'+'
    then elim (read_natural s) [ none ↦ none | some n ↦ some (pos n) ]
    else elim (read_natural (c ∷ s)) [ none ↦ none | some n ↦ some (pos n) ]

-- The digits of a number; one round of fuel gives one digit.
print_digits : ℕ → ℕ → Text
print_digits zero n = []
print_digits (suc fuel) n =
    let more = print_digits fuel (n / 10) ++ (b'0' + n % 10) ∷ [] in
    if ltb n 10 then (b'0' + n) ∷ [] else more

-- `(*big.Int).String` of a number that is not negative; the fuel is above the number.
unfoldable pub decimal : ℕ → Text
unfolding print_digits
decimal n = print_digits (suc n) n

-- The integer as `%d` prints it.
unfoldable pub format_int : ℤ → Text
unfolding decimal
format_int (pos n) = decimal n
format_int (negsuc n) = b'-' ∷ decimal (suc n)

-- `strconv.Atoi` on 64 bits: the same texts, and an error out of range.
unfoldable pub atoi : Text → Option ℤ
unfolding set_string
atoi s = elim (set_string s) [
  | none ↦ none
  | some (pos n) ↦ if ltb n (2 ^ 63) then some (pos n) else none
  | some (negsuc n) ↦ if ltb n (2 ^ 63) then some (negsuc n) else none
]
