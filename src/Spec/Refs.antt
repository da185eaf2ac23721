-- ===== src/Spec/Refs.antt =====
-- Local references of an OpenAPI document: `resolveObject` (internal/canary/specsmith.go).
pub mod Chains
use canary.Base.{
  ℕ, zero, suc, ◌-◌, Text, lit, text_eq, has_prefix, is_empty, split, replace_pair, if◌then◌else◌,
  not, Option, none, some, List, [], ◌∷◌,
}
use canary.Json.{Json, obj, Fields, Object, get, get_field, as_object, string_value}

-- `strings.ReplaceAll(strings.ReplaceAll(token, "~1", "/"), "~0", "~")`
unfoldable pub unescape : Text → Text
unescape token = replace_pair b'~' b'0' b'~' (replace_pair b'~' b'1' b'/' token)

-- The value that the tokens lead to, one key for each.
unfoldable pub follow : Json → List Text → Option Json
follow current [] = some current
follow current (token ∷ tokens) = elim (as_object current) [
  | none ↦ none
  | some container ↦ elim (get_field (unescape token) container) [
    | none ↦ none
    | some inner ↦ follow inner tokens
  ]
]

-- `strings.TrimPrefix(ref, "#/")` where the prefix is there
abbrev behind_hash : Text → Text
behind_hash (a ∷ b ∷ s) = s
behind_hash s = s

-- What a reference leads to. An object without a local reference, or whose reference leads nowhere, is
-- taken as it is.
unfoldable pub local_target : Fields → Fields → Option Json
unfolding follow unescape
local_target document object =
    let ref = string_value (get (some object) (lit "$ref")) in
    if is_empty ref
    then none
    else if not (has_prefix (lit "#/") ref)
    then none
    else follow (obj document) (split b'/' (behind_hash ref))

-- With the number of objects that may still be looked at.
unfoldable pub resolve_within : Fields → ℕ → Json → Object
resolve_within document zero raw = none
resolve_within document (suc fuel) raw = elim (as_object raw) [
  | none ↦ none
  | some object ↦ elim (local_target document object) [
    | none ↦ some object
    | some current ↦ resolve_within document fuel current
  ]
]

-- From a depth of 9 on, nothing is looked at.
unfoldable pub resolve_object : Fields → Json → ℕ → Object
unfolding resolve_within local_target
resolve_object document raw depth = resolve_within document (9 - depth) raw
