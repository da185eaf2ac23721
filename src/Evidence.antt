-- ===== src/Evidence.antt =====
-- How untrusted text enters a report (the helpers at the end of internal/canary/auditor.go).
pub mod Bounds
use canary.Base.{
  ℕ, zero, suc, Text, lit, nat_eq, trim_space, length, take, is_empty, ltb, leb, ◌==◌,
  if◌then◌else◌, Bool, true, false, not, ◌&&◌, ◌||◌, Option, none, some, List, [], ◌∷◌, ◌++◌,
}

-- `truncateText`: the limit counts bytes.
unfoldable pub truncate_text : Text → ℕ → Text
truncate_text value limit =
    let value' = trim_space value in
    if leb (length value') limit then value' else take limit value' ++ lit "…"

-- `safeError` of an error that is not nil.
unfoldable pub safe_error : Text → Text
safe_error message = truncate_text message 400

unfoldable pub settlement_evidence : Text → Text
settlement_evidence header = truncate_text header 2000

-- `firstHeader`: the first name whose header is set to a text that is not empty.
unfoldable pub first_header : (Text → Text) → List Text → Text
first_header headers [] = []
first_header headers (name ∷ names) =
    let rest = first_header headers names in if is_empty (headers name) then rest else headers name

-- What a lead byte of UTF-8 is followed by: the number of continuation bytes, and the range of the
-- first of them.
follow : ℕ → Option (ℕ × ℕ × ℕ)
follow c =
    if ltb c 0x80
    then some (0, 0x80, 0xBF)
    else if leb 0xC2 c && leb c 0xDF
    then some (1, 0x80, 0xBF)
    else if c == 0xE0
    then some (2, 0xA0, 0xBF)
    else if c == 0xED
    then some (2, 0x80, 0x9F)
    else if leb 0xE1 c && leb c 0xEF
    then some (2, 0x80, 0xBF)
    else if c == 0xF0
    then some (3, 0x90, 0xBF)
    else if leb 0xF1 c && leb c 0xF3
    then some (3, 0x80, 0xBF)
    else if c == 0xF4
    then some (3, 0x80, 0x8F)
    else none

-- `missing` continuation bytes are still to come, the next of them between `lo` and `hi`.
valid_from : ℕ → ℕ → ℕ → Text → Bool
valid_from zero lo hi [] = true
valid_from (suc missing) lo hi [] = false
valid_from zero lo hi (c ∷ s) = elim (follow c) [
  | none ↦ false
  | some (missing, lo', hi') ↦ valid_from missing lo' hi' s
]
valid_from (suc missing) lo hi (c ∷ s) = leb lo c && leb c hi && valid_from missing 0x80 0xBF s

-- `utf8.Valid`
unfoldable pub valid_utf8 : Text → Bool
unfolding valid_from follow
valid_utf8 = valid_from 0 0x80 0xBF

-- The rune filter of `preview`. In valid UTF-8 a rune below 32 is one byte below 32.
abbrev pub is_kept : ℕ → Bool
is_kept c = c == 0x0A || c == 0x0D || c == 0x09 || leb 32 c

unfoldable pub drop_controls : Text → Text
drop_controls [] = []
drop_controls (c ∷ s) = if is_kept c then c ∷ drop_controls s else drop_controls s

-- The limit is a Go int; the configured one is not negative, and 0 omits everything.
unfoldable pub preview : Text → ℕ → Text
preview body limit =
    if limit == 0 || is_empty body
    then []
    else let body' = if ltb limit (length body) then take limit body else body in
      if not (valid_utf8 body') then lit "[binary response omitted]" else drop_controls body'
