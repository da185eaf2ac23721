-- ===== src/Base/Bytes/Quote.antt =====
-- The `%q` verb over bytes. Bytes of 0x80 and above are copied: the model does not tell printable
-- runes from others.
use Prim.Native.Nat.{ℕ, ◌+◌, ◌-◌, ◌/◌, ◌%◌}
use mathlib.Core.Bool.{◌||◌}
use mathlib.Core.List.{[], ◌∷◌, ◌++◌}
use canary.Base.Tests.{ltb, if◌then◌else◌, ◌==◌, nat_eq}
use canary.Base.Bytes.{Text, lit}

hex_digit : ℕ → ℕ
hex_digit d = if ltb d 10 then b'0' + d else b'a' + (d - 10)

quote_byte : ℕ → Text
unfolding hex_digit lit
quote_byte c =
    if c == b'"' || c == b'\\'
    then b'\\' ∷ c ∷ []
    else if c == 0x07
    then lit "\\a"
    else if c == 0x08
    then lit "\\b"
    else if c == 0x0C
    then lit "\\f"
    else if c == 0x0A
    then lit "\\n"
    else if c == 0x0D
    then lit "\\r"
    else if c == 0x09
    then lit "\\t"
    else if c == 0x0B
    then lit "\\v"
    else if ltb c 0x20 || c == 0x7F
    then b'\\' ∷ b'x' ∷ hex_digit (c / 16) ∷ hex_digit (c % 16) ∷ []
    else c ∷ []

quote_bytes : Text → Text
quote_bytes [] = []
quote_bytes (c ∷ s) = quote_byte c ++ quote_bytes s

unfoldable pub quote : Text → Text
unfolding quote_bytes quote_byte
quote s = b'"' ∷ (quote_bytes s ++ b'"' ∷ [])
