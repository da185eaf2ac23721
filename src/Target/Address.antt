-- ===== src/Target/Address.antt =====
-- `netip.Addr` and `isSafePublicIP` (internal/canary/safeclient.go).
pub mod Ranges
use canary.Base.{
  ℕ, ◌-◌, ◌*◌, ◌/◌, ◌^◌, Text, nat_eq, is_empty, ◌==◌, if◌then◌else◌, Bool, true, false, not, ◌&&◌,
  ◌||◌, List, [], ◌∷◌,
}

-- The zero value, an IPv4 address as its 32 bits, an IPv6 address as its 128 bits and its zone.
pub data Addr : Type 0 where
  invalid : Addr
  v4 : ℕ → Addr
  v6 : ℕ → Text → Addr

-- `Unmap`: an IPv4-mapped IPv6 address as IPv4, without its zone.
unfoldable pub unmap : Addr → Addr
unmap (v6 a zone) = if a / 2 ^ 32 == 0xFFFF then v4 (a - 0xFFFF * 2 ^ 32) else v6 a zone
unmap a = a

-- The predicates of netip that the check calls.
abbrev pub is_valid : Addr → Bool
is_valid invalid = false
is_valid _ = true

unfoldable pub is_loopback : Addr → Bool
is_loopback invalid = false
is_loopback (v4 a) = a / 2 ^ 24 == 127
is_loopback (v6 a zone) = a == 1

unfoldable pub is_multicast : Addr → Bool
is_multicast invalid = false
is_multicast (v4 a) = a / 2 ^ 28 == 0xE
is_multicast (v6 a zone) = a / 2 ^ 120 == 0xFF

unfoldable pub is_link_local_unicast : Addr → Bool
is_link_local_unicast invalid = false
is_link_local_unicast (v4 a) = a / 2 ^ 16 == 0xA9FE
is_link_local_unicast (v6 a zone) = a / 2 ^ 118 == 0x3FA

unfoldable pub is_private : Addr → Bool
is_private invalid = false
is_private (v4 a) = a / 2 ^ 24 == 10 || a / 2 ^ 20 == 0xAC1 || a / 2 ^ 16 == 0xC0A8
is_private (v6 a zone) = a / 2 ^ 121 == 0x7E

-- The unspecified IPv6 address is the one without a zone.
abbrev pub is_special : Addr → Bool
is_special invalid = true
is_special (v4 a) = a == 0 || a == 0xFFFFFFFF
is_special (v6 a zone) = a == 0 && is_empty zone

unfoldable pub is_global_unicast : Addr → Bool
unfolding is_loopback is_multicast is_link_local_unicast
is_global_unicast a =
    not (is_special a)
    && not (is_loopback a)
    && not (is_multicast a)
    && not (is_link_local_unicast a)

pub data Prefix : Type 0 where
  prefix4 : ℕ → ℕ → Prefix
  prefix6 : ℕ → ℕ → Prefix

-- `Prefix.Contains`: families differ, and an address with a zone is in no prefix.
unfoldable pub contains : Prefix → Addr → Bool
contains (prefix4 p bits) (v4 a) = a / 2 ^ (32 - bits) == p / 2 ^ (32 - bits)
contains (prefix6 p bits) (v6 a zone) =
    is_empty zone && a / 2 ^ (128 - bits) == p / 2 ^ (128 - bits)
contains _ _ = false

abbrev pub prohibited : List Prefix
prohibited =
    prefix4 0x00000000 8
    ∷ prefix4 0x64400000 10
    ∷ prefix4 0xC0000000 24
    ∷ prefix4 0xC0000200 24
    ∷ prefix4 0xC6120000 15
    ∷ prefix4 0xC6336400 24
    ∷ prefix4 0xCB007100 24
    ∷ prefix6 0x0064FF9B000000000000000000000000 96
    ∷ prefix6 0x0064FF9B000100000000000000000000 48
    ∷ prefix6 0x20010DB8000000000000000000000000 32
    ∷ []

-- The loop over the prefixes.
unfoldable pub in_any : List Prefix → Addr → Bool
unfolding contains
in_any [] a = false
in_any (p ∷ ps) a = contains p a || in_any ps a

unfoldable pub is_safe_public_ip : Addr → Bool
unfolding unmap is_global_unicast is_private in_any
is_safe_public_ip addr =
    let a = unmap addr in
    if not (is_valid a)
      || not (is_global_unicast a)
      || is_private a
      || is_loopback a
      || is_link_local_unicast a
    then false
    else not (in_any prohibited a)
