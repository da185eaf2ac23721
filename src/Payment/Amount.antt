-- ===== src/Payment/Amount.antt =====
-- Atomic amounts: `atomicString`, `integerValue` and the checked caps of `SelectPayment`
-- (internal/canary/payment.go).
pub mod Canonical
use canary.Base.{
  ℕ, suc, Text, lit, ℤ, pos, set_string, decimal, atoi, Result, ok, err, ◌>>=◌, Option, none, some,
}
use canary.Json.{Json, str, num}

-- `new(big.Int).SetString(text, 10)` with `Sign() >= 0`, printed back.
natural_text : Text → Result Text
natural_text text = elim (set_string text) [
  | some (pos n) ↦ ok (decimal n)
  | _ ↦ err (lit "not an atomic integer")
]

unfoldable pub atomic_string : Json → Result Text
unfolding natural_text
atomic_string (str text) = natural_text text
atomic_string (num text) = natural_text text
atomic_string _ = err (lit "not an atomic integer")

-- The error of `strconv.Atoi` is only tested by the callers.
unfoldable pub integer_value : Json → Result ℤ
integer_value value = do
  text ← atomic_string value
  elim (atoi text) [ none ↦ err (lit "value out of range") | some n ↦ ok n ]

-- `new(big.Int).SetString(text, 10)` with `Sign() > 0`.
unfoldable pub positive_amount : Text → Option ℕ
positive_amount text = elim (set_string text) [ some (pos (suc n)) ↦ some (suc n) | _ ↦ none ]
