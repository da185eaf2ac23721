-- ===== src/Payment/Challenge/Accepts.antt =====
-- What a challenge holds that ParsePaymentChallenge (internal/canary/payment.go) accepts.
use canary.Base.{
  ℕ, suc, ◌+◌, ◌≤◌, Text, lit, decimal, ℤ, pos, negsuc, ok, Result-cases, length, is_empty, ◌≡◌,
  inl, inr, refl, sym, ap, subst, ◌∙◌, arith, true, false, List, [], ◌∷◌, All,
}
use canary.Json.{Object, get}
use canary.Payment.{PaymentRequirement, PaymentChallenge}
use canary.Payment.Amount.{atomic_string}
use canary.Payment.Amount.Canonical.{atomic_string_sound}
use canary.Payment.Challenge.{
  RawChallenge, option_amount, option_timeout, parse_option, parse_options, read_challenge,
  in_timeout_range, is_two,
}

-- A requirement as the parser leaves it: the amount in canonical decimal, the timeout in range.
pub record IsParsed (r : PaymentRequirement) : Type 0 where
  pub units : ℕ
  pub canonical : r.amount ≡ decimal units
  pub seconds : ℕ
  pub timeout : r.max_timeout_seconds ≡ pos seconds
  pub at_least : 1 ≤ seconds
  pub at_most : seconds ≤ 86400

option_amount-canonical :
    (index : ℕ) (item : Object) (amount : Text)
    → option_amount index item ≡ ok amount
    → (n : ℕ) × (amount ≡ decimal n)
unfolding option_amount
option_amount-canonical index item amount h =
    elim (Result-cases (atomic_string (get item (lit "amount")))) [
      | inl (a, first) ↦ let (n, read, same, _) = atomic_string_sound _ first in (n, ground arith)
      | inr (e, bad) ↦ elim (Result-cases (atomic_string (get item (lit "maxAmountRequired")))) [
        | inl (a, second) ↦
            let (n, read, same, _) = atomic_string_sound _ second in (n, ground arith)
        | inr (e', bad') ↦ absurd (ground arith)
      ]
    ]

range_sound : (t : ℤ) → in_timeout_range t ≡ true → (n : ℕ) × (t ≡ pos n) × (1 ≤ n) × (n ≤ 86400)
range_sound (pos n) h = (n, refl, ground arith, ground arith)
range_sound (negsuc n) h = cc

option_timeout-range :
    (index : ℕ) (item : Object) (t : ℤ)
    → option_timeout index item ≡ ok t
    → in_timeout_range t ≡ true
unfolding option_timeout
option_timeout-range index item t h = ground arith

parse_option-IsParsed :
    (index : ℕ) (item : Object) (r : PaymentRequirement)
    → parse_option index item ≡ ok r
    → IsParsed r
unfolding parse_option
parse_option-IsParsed index item r h = elim (Result-cases (option_amount index item)) [
  | inr (e, bad) ↦ absurd (ground arith)
  | inl (amount, priced) ↦ elim (Result-cases (option_timeout index item)) [
    | inr (e, bad) ↦ absurd (ground arith)
    | inl (t, timed) ↦
        let (units, canonical) = option_amount-canonical index item amount priced in
        let (seconds, timeout, at_least, at_most) =
          range_sound t (option_timeout-range index item t timed) in
        record {
          units = units;
          canonical = ground arith;
          seconds = seconds;
          timeout = ground arith;
          at_least = at_least;
          at_most = at_most;
        }
  ]
]

parse_options_sound :
    (index : ℕ) (items : List Object) (rs : List PaymentRequirement)
    → parse_options index items ≡ ok rs
    → (length rs ≡ length items) × All IsParsed rs
unfolding parse_options
parse_options_sound index [] [] h = (refl, tt)
parse_options_sound index [] (r ∷ rs) h = absurd (cc)
parse_options_sound index (item ∷ items) rs h = elim (Result-cases (parse_option index item)) [
  | inr (e, bad) ↦ absurd (ground arith)
  | inl (r, parsed) ↦ elim (Result-cases (parse_options (index + 1) items)) [
    | inr (e, bad) ↦ absurd (ground arith)
    | inl (more, read) ↦
        let same : r ∷ more ≡ rs = ground arith in
        let (lengths, all) = parse_options_sound (index + 1) items more read in
        subst (λ u. (length u ≡ suc (length items)) × All IsParsed u) same
          (ap suc lengths, (parse_option-IsParsed index item r parsed, all))
  ]
]

-- A challenge `c` read from `raw`.
pub record IsWellFormed (raw : RawChallenge) (c : PaymentChallenge) : Type 0 where
  pub version : c.version ≡ pos 2
  pub same_version : raw.x402_version ≡ pos 2
  pub extensions : c.extensions ≡ raw.extensions
  pub lengths : length c.accepts ≡ length raw.accepts
  pub some_option : 1 ≤ length c.accepts
  pub parsed : All IsParsed c.accepts

is_two_sound : (n : ℤ) → is_two n ≡ true → n ≡ pos 2
is_two_sound (pos n) h = ground arith
is_two_sound (negsuc n) h = cc

not_empty_pos : {A : Type 0} (xs : List A) → is_empty xs ≡ false → 1 ≤ length xs
not_empty_pos [] h = cc
not_empty_pos (x ∷ xs) h = omega arith

-- A challenge is accepted only in version 2 with at least one option. It keeps the extensions and
-- has one requirement for each option, its amount in canonical decimal and its timeout between one
-- second and a day.
pub read_challenge-IsWellFormed :
    (raw : RawChallenge) (c : PaymentChallenge) → read_challenge raw ≡ ok c → IsWellFormed raw c
unfolding read_challenge
read_challenge-IsWellFormed raw c h = elim (Result-cases (parse_options 0 raw.accepts)) [
  | inr (e, bad) ↦ absurd (ground arith)
  | inl (rs, read) ↦
      let (lengths, all) = parse_options_sound 0 raw.accepts rs read in
      let two = is_two_sound raw.x402_version (ground arith) in
      let positive = not_empty_pos raw.accepts (ground arith) in
      let same : rs ≡ c.accepts = ground arith in
      record {
        version = ground arith;
        same_version = two;
        extensions = ground arith;
        lengths = ap length (sym same) ∙ lengths;
        some_option = omega (arith, ap length same);
        parsed = subst (All IsParsed) same all;
      }
]
