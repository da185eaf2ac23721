-- ===== src/Payment/Amount/Canonical.antt =====
-- `atomicString` (internal/canary/payment.go) and the number that a JSON value spells.
use canary.Base.{
  ℕ, Text, ℤ, pos, set_string, set_string-decimal, decimal, ok, ◌≡◌, sym, subst, arith, Option,
  none, some,
}
use canary.Json.{Json, null, bool, num, str, arr, obj}
use canary.Payment.Amount.{natural_text, atomic_string}

natural_text_sound :
    (t : Text) {s : Text}
    → natural_text t ≡ ok s
    → (n : ℕ) × (set_string t ≡ some (pos n)) × (s ≡ decimal n)
unfolding natural_text
natural_text_sound t h = ground arith

-- The number that a JSON value spells: that of a string or of a number literal.
pub atomic_value : Json → Option ℤ
atomic_value (str t) = set_string t
atomic_value (num t) = set_string t
atomic_value _ = none

-- A value that `atomicString` accepts spells a number that is not negative, and the result is the
-- decimal text of that number, which reads back as that number.
pub atomic_string_sound :
    (v : Json) {s : Text}
    → atomic_string v ≡ ok s
    → (n : ℕ) × (atomic_value v ≡ some (pos n)) × (s ≡ decimal n) × (set_string s ≡ some (pos n))
unfolding atomic_string atomic_value
atomic_string_sound (str t) h =
    let (n, read, same) = natural_text_sound t h in
    (n, read, same, subst (λ u. set_string u ≡ some (pos n)) (sym same) (set_string-decimal n))
atomic_string_sound (num t) h =
    let (n, read, same) = natural_text_sound t h in
    (n, read, same, subst (λ u. set_string u ≡ some (pos n)) (sym same) (set_string-decimal n))
atomic_string_sound null h = cc
atomic_string_sound (bool b) h = cc
atomic_string_sound (arr xs) h = cc
atomic_string_sound (obj fs) h = cc
