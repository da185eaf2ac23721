-- ===== src/Base/Bytes/Space.antt =====
-- `strings.TrimSpace` over bytes: a rune of `unicode.IsSpace` is its UTF-8 encoding, and an invalid
-- byte is no space.
pub mod Visible
use Prim.Native.Nat.{ℕ, zero, suc}
use mathlib.Core.List.{List, [], ◌∷◌, map, reverse}
use canary.Base.Tests.{if◌then◌else◌}
use canary.Base.Lists.{length}
use canary.Base.Bytes.{Text, has_prefix}

abbrev white_space : List Text
white_space =
    (0x20 ∷ [])
    ∷ (0x09 ∷ [])
    ∷ (0x0A ∷ [])
    ∷ (0x0B ∷ [])
    ∷ (0x0C ∷ [])
    ∷ (0x0D ∷ [])
    ∷ (0xC2 ∷ 0x85 ∷ [])
    ∷ (0xC2 ∷ 0xA0 ∷ [])
    ∷ (0xE1 ∷ 0x9A ∷ 0x80 ∷ [])
    ∷ (0xE2 ∷ 0x80 ∷ 0x80 ∷ [])
    ∷ (0xE2 ∷ 0x80 ∷ 0x81 ∷ [])
    ∷ (0xE2 ∷ 0x80 ∷ 0x82 ∷ [])
    ∷ (0xE2 ∷ 0x80 ∷ 0x83 ∷ [])
    ∷ (0xE2 ∷ 0x80 ∷ 0x84 ∷ [])
    ∷ (0xE2 ∷ 0x80 ∷ 0x85 ∷ [])
    ∷ (0xE2 ∷ 0x80 ∷ 0x86 ∷ [])
    ∷ (0xE2 ∷ 0x80 ∷ 0x87 ∷ [])
    ∷ (0xE2 ∷ 0x80 ∷ 0x88 ∷ [])
    ∷ (0xE2 ∷ 0x80 ∷ 0x89 ∷ [])
    ∷ (0xE2 ∷ 0x80 ∷ 0x8A ∷ [])
    ∷ (0xE2 ∷ 0x80 ∷ 0xA8 ∷ [])
    ∷ (0xE2 ∷ 0x80 ∷ 0xA9 ∷ [])
    ∷ (0xE2 ∷ 0x80 ∷ 0xAF ∷ [])
    ∷ (0xE2 ∷ 0x81 ∷ 0x9F ∷ [])
    ∷ (0xE3 ∷ 0x80 ∷ 0x80 ∷ [])
    ∷ []

-- The length of the first sequence that the text begins with, 0 if there is none.
leading : List Text → Text → ℕ
leading [] s = 0
leading (w ∷ ws) s = if has_prefix w s then length w else leading ws s

-- `skip` bytes of a white space rune are still to be dropped.
drop_leading : List Text → ℕ → Text → Text
drop_leading ws skip [] = []
drop_leading ws (suc skip) (c ∷ s) = drop_leading ws skip s
drop_leading ws zero (c ∷ s) = elim (leading ws (c ∷ s)) [
  | zero ↦ c ∷ s
  | suc skip ↦ drop_leading ws skip s
]

unfoldable pub trim_space : Text → Text
unfolding drop_leading leading has_prefix
trim_space s =
    reverse (drop_leading (map reverse white_space) 0 (reverse (drop_leading white_space 0 s)))
