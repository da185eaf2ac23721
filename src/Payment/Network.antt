-- ===== src/Payment/Network.antt =====
-- `normalizeNetwork`, `addressPattern` and `signaturePattern` (internal/canary/payment.go).
use canary.Base.{
  ℕ, zero, suc, Text, lit, text_eq, quote, trim_space, to_lower, Result, ok, err, leb, ◌==◌, nat_eq,
  if◌then◌else◌, Bool, true, false, ◌&&◌, ◌||◌, [], ◌∷◌, ◌++◌,
}

abbrev pub base : Text
base = lit "eip155:8453"

abbrev pub base_sepolia : Text
base_sepolia = lit "eip155:84532"

-- A network name as it stands in a challenge, to its CAIP-2 name and its chain id.
unfoldable pub normalize_network : Text → Result (Text × ℕ)
normalize_network value =
    let name = to_lower (trim_space value) in
    if name == lit "base" || name == base || name == lit "8453"
    then ok (base, 8453)
    else if name == lit "base-sepolia" || name == base_sepolia || name == lit "84532"
    then ok (base_sepolia, 84532)
    else err (lit "unsupported payment network " ++ quote value)

abbrev pub is_hex : ℕ → Bool
is_hex c = (leb b'0' c && leb c b'9') || (leb b'a' c && leb c b'f') || (leb b'A' c && leb c b'F')

unfoldable pub exactly_hex : ℕ → Text → Bool
exactly_hex zero [] = true
exactly_hex zero (c ∷ s) = false
exactly_hex (suc n) [] = false
exactly_hex (suc n) (c ∷ s) = is_hex c && exactly_hex n s

-- The pattern `^0x[0-9a-fA-F]{n}$`.
unfoldable pub is_hex_literal : ℕ → Text → Bool
unfolding exactly_hex
is_hex_literal n (a ∷ b ∷ s) = a == b'0' && b == b'x' && exactly_hex n s
is_hex_literal n _ = false

-- `addressPattern.MatchString`
unfoldable pub is_address : Text → Bool
unfolding is_hex_literal
is_address = is_hex_literal 40

-- `signaturePattern.MatchString`
unfoldable pub is_signature : Text → Bool
unfolding is_hex_literal
is_signature = is_hex_literal 130
