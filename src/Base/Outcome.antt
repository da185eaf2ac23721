-- ===== src/Base/Outcome.antt =====
-- A Go result `(value, error)`: the error is its message.
use canary.Base.Bytes.{Text}
use mathlib.Core.Path.{◌≡◌, refl}
use mathlib.Core.List.{◌++◌}
use mathlib.Core.Bool.{Bool, true, false}
use mathlib.Core.Logic.{◌⊎◌, inl, inr}

pub data Result {ℓ} (A : Type ℓ) : Type ℓ where
  ok : A → Result A
  err : Text → Result A

-- `if err != nil { return …, err }` between two calls.
module _ {ℓ κ} {A : Type ℓ} {B : Type κ} where
  infixl 5 ◌>>=◌
  abbrev pub ◌>>=◌ : Result A → (A → Result B) → Result B
  err message >>= next = err message
  ok value >>= next = next value

module _ {ℓ} {B : Type ℓ} where
  infixl 5 ◌>>◌
  abbrev pub ◌>>◌ : Result (Unit {0}) → Result B → Result B
  checked >> rest = checked >>= λ done. rest

-- `if bad { return …, fmt.Errorf(…) }`
abbrev pub refuse_if : Bool → Text → Result (Unit {0})
refuse_if true e = err e
refuse_if false e = ok tt

-- `fmt.Errorf("…: %w", err)`
abbrev pub with_context {ℓ} : {A : Type ℓ} → Text → Result A → Result A
with_context message (ok a) = ok a
with_context message (err e) = err (message ++ e)

pub Result-cases {ℓ} :
    {A : Type ℓ} (r : Result A) → ((a : A) × (r ≡ ok a)) ⊎ ((e : Text) × (r ≡ err e))
Result-cases (ok a) = inl (a, refl)
Result-cases (err e) = inr (e, refl)
