-- ===== src/Payment/Signer/Pinned.antt =====
-- The addresses that `RemoteSigner` (internal/canary/payment.go) returns.
use canary.Base.{
  Text, is_empty, Result, ok, err, ◌>>=◌, ◌≡◌, ◌⊎◌, inl, inr, refl, arith, true, false, List, [],
  ◌∷◌, Any, first, later,
}
use canary.Payment.Network.{is_address, is_hex_literal}
use canary.Payment.Signer.{SignerApi, RemoteSigner, first_address, pin, signer_address, addresses}

-- The address `a` is among the answers.
abbrev pub Returns : List (Result Text) → Text → Type 0
Returns answers a = Any (λ (r : Result Text). r ≡ ok a) answers

Returns-cases :
    {a : Text} {r : Result Text} {rs : List (Result Text)}
    → Returns (r ∷ rs) a
    → (r ≡ ok a) ⊎ Returns rs a
Returns-cases (first same) = inl same
Returns-cases (later more) = inr more

pinned_step :
    (api : SignerApi) (s : RemoteSigner)
    → is_empty s.address ≡ false
    → signer_address api s ≡ (ok s.address, s)
unfolding signer_address
pinned_step api s known = rw (known, signer_address) refl

pinned_answers :
    (apis : List SignerApi) (s : RemoteSigner) (a : Text)
    → is_empty s.address ≡ false
    → Returns (addresses apis s) a
    → a ≡ s.address
unfolding addresses
pinned_answers [] s a known h = elim h [ ]
pinned_answers (api ∷ apis) s a known h =
    let step = pinned_step api s known in
    elim (Returns-cases h) [
      | inl same ↦ ground arith
      | inr more ↦ pinned_answers apis s a known (rw step at more)
    ]

-- How a call with no address yet ends: with an error, or with an address that is kept.
FirstStep : RemoteSigner → Result Text × RemoteSigner → Type 0
FirstStep s (answer, s') =
    ((e : Text) × (answer ≡ err e) × (s' ≡ s))
    ⊎ ((key : Text) × (answer ≡ ok key) × (s'.address ≡ key) × (is_address key ≡ true))

pin_step :
    (s : RemoteSigner) (r : Result Text)
    → ((key : Text) → r ≡ ok key → is_address key ≡ true)
    → FirstStep s (pin s r)
unfolding pin FirstStep
pin_step s (err e) valid = inl (e, refl, refl)
pin_step s (ok key) valid = inr (key, refl, refl, valid key refl)

first_address-is_address :
    (keys : List Text) (key : Text) → first_address keys ≡ ok key → is_address key ≡ true
unfolding first_address
first_address-is_address [] key h = absurd (cc)
first_address-is_address (k ∷ keys) key h = ground arith

bound_address :
    (r : Result (List Text)) (key : Text) → (r >>= first_address) ≡ ok key → is_address key ≡ true
bound_address (err e) key h = absurd (cc)
bound_address (ok keys) key h = first_address-is_address keys key h

first_step :
    (api : SignerApi) (s : RemoteSigner)
    → is_empty s.address ≡ true
    → FirstStep s (signer_address api s)
unfolding signer_address
first_step api s unknown = rw (unknown, signer_address) (pin_step s _ (bound_address _))

address-nonempty : (key : Text) → is_address key ≡ true → is_empty key ≡ false
unfolding is_address is_hex_literal
address-nonempty [] h = cc
address-nonempty (c ∷ key) h = refl

-- The one address of a run that starts with none.
one_address :
    (apis : List SignerApi) (s : RemoteSigner)
    → is_empty s.address ≡ true
    → (key : Text) × ((a : Text) → Returns (addresses apis s) a → (a ≡ key) × (is_address a ≡ true))
unfolding addresses FirstStep
one_address [] s unknown = ([], λ a h. elim h [ ])
one_address (api ∷ apis) s unknown = elim (first_step api s unknown) [
  | inl (e, failed, same) ↦
      let (key, only) = one_address apis s unknown in
      (
        key,
        λ a h. elim (Returns-cases h) [
          | inl found ↦ absurd (ground arith)
          | inr more ↦ only a (rw same at more)
        ],
      )
  | inr (key, found, kept, valid) ↦ (
    key,
    λ a h. elim (Returns-cases h) [
      | inl same ↦ ground arith
      | inr more ↦
          let a_key =
            pinned_answers apis (signer_address api s).1 a (rw kept (address-nonempty key valid))
              more in
          ground arith
    ],
  )
]

-- In every run of a new signer, whatever is answered over HTTP at each call, all addresses that it
-- returns are the same one, and match the address pattern.
pub addresses-pinned :
    (apis : List SignerApi) (s : RemoteSigner)
    → s.address ≡ []
    → (key : Text) × ((a : Text) → Returns (addresses apis s) a → (a ≡ key) × (is_address a ≡ true))
addresses-pinned apis s new = one_address apis s (ground arith)
