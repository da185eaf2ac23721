-- ===== src/Target/Address/Ranges.antt =====
-- The addresses that `isSafePublicIP` (internal/canary/safeclient.go) accepts, as what lies outside
-- a list of ranges.
use canary.Base.{ℕ, ◌+◌, ◌*◌, ◌^◌, ◌≤◌, ◌<◌, Text, ◌≡◌, ◌↔◌, arith, true, List, [], ◌∷◌, All}
use canary.Target.Address.{v4, v6, is_safe_public_ip}

-- A range from its first to its last address.
abbrev pub Avoids : ℕ → ℕ × ℕ → Type 0
Avoids a (lo, hi) = ¬ ((lo ≤ a) × (a ≤ hi))

-- This network, private, carrier-grade NAT, loopback, link-local, private, protocol assignments,
-- documentation, private, benchmark, documentation twice, multicast, broadcast.
abbrev pub reserved4 : List (ℕ × ℕ)
reserved4 =
    (0x00000000, 0x00FFFFFF)
    ∷ (0x0A000000, 0x0AFFFFFF)
    ∷ (0x64400000, 0x647FFFFF)
    ∷ (0x7F000000, 0x7FFFFFFF)
    ∷ (0xA9FE0000, 0xA9FEFFFF)
    ∷ (0xAC100000, 0xAC1FFFFF)
    ∷ (0xC0000000, 0xC00000FF)
    ∷ (0xC0000200, 0xC00002FF)
    ∷ (0xC0A80000, 0xC0A8FFFF)
    ∷ (0xC6120000, 0xC613FFFF)
    ∷ (0xC6336400, 0xC63364FF)
    ∷ (0xCB007100, 0xCB0071FF)
    ∷ (0xE0000000, 0xEFFFFFFF)
    ∷ (0xFFFFFFFF, 0xFFFFFFFF)
    ∷ []

-- An IPv4 address is safe exactly outside these ranges.
pub is_safe_public_ip-v4_iff :
    (a : ℕ) → (is_safe_public_ip (v4 a) ≡ true) ↔ All (Avoids a) reserved4
unfolding is_safe_public_ip
is_safe_public_ip-v4_iff a = ground arith

-- Unspecified and loopback, unique local, link-local, multicast, which no zone hides.
abbrev pub local6 : List (ℕ × ℕ)
local6 =
    (0x00000000000000000000000000000001, 0x00000000000000000000000000000001)
    ∷ (0xFC000000000000000000000000000000, 0xFDFFFFFFFFFFFFFFFFFFFFFFFFFFFFFF)
    ∷ (0xFE800000000000000000000000000000, 0xFEBFFFFFFFFFFFFFFFFFFFFFFFFFFFFF)
    ∷ (0xFF000000000000000000000000000000, 0xFFFFFFFFFFFFFFFFFFFFFFFFFFFFFFFF)
    ∷ []

-- Unspecified, the two NAT64 ranges, documentation.
abbrev pub translated6 : List (ℕ × ℕ)
translated6 =
    (0x00000000000000000000000000000000, 0x00000000000000000000000000000000)
    ∷ (0x0064FF9B000000000000000000000000, 0x0064FF9B0000000000000000FFFFFFFF)
    ∷ (0x0064FF9B000100000000000000000000, 0x0064FF9B0001FFFFFFFFFFFFFFFFFFFF)
    ∷ (0x20010DB8000000000000000000000000, 0x20010DB8FFFFFFFFFFFFFFFFFFFFFFFF)
    ∷ []

-- An IPv4-mapped IPv6 address is safe exactly if the IPv4 address is, whatever its zone.
pub is_safe_public_ip-mapped :
    (a : ℕ) (zone : Text)
    → a < 2 ^ 32
    → is_safe_public_ip (v6 (0xFFFF * 2 ^ 32 + a) zone) ≡ is_safe_public_ip (v4 a)
unfolding is_safe_public_ip
is_safe_public_ip-mapped a zone h = ground arith
