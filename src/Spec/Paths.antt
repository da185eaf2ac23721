-- ===== src/Spec/Paths.antt =====
-- The path of the requested operation in an OpenAPI document: `findOpenAPIPath` and
-- `pathTemplateMatches` (internal/canary/specsmith.go).
pub mod Templates
pub mod Best
use canary.Base.{
  ℕ, Text, lit, text_eq, nat_eq, has_prefix, has_suffix, split, sort_texts, trim_set, length, ltb,
  is_empty, ◌==◌, if◌then◌else◌, Bool, true, false, not, ◌&&◌, Option, none, some, List, [], ◌∷◌,
}
use canary.Json.{Fields, get, keys, as_object}

abbrev is_slash : ℕ → Bool
is_slash c = c == b'/'

-- A part in braces stands for any part that is not empty.
unfoldable pub is_parameter : Text → Bool
is_parameter part = has_prefix (lit "{") part && (has_suffix (lit "}") part && ltb 2 (length part))

-- The parts between the slashes, without those at the ends.
unfoldable pub segments : Text → List Text
segments path = split b'/' (trim_set is_slash path)

-- The loop over the parts, of which there are equally many.
unfoldable pub parts_match : List Text → List Text → Bool
parts_match [] [] = true
parts_match (part ∷ parts) (actual ∷ actuals) =
    (if is_parameter part then not (is_empty actual) else part == actual)
    && parts_match parts actuals
parts_match _ _ = false

unfoldable pub path_template_matches : Text → Text → Bool
unfolding parts_match
path_template_matches template actual =
    if template == actual
    then true
    else if not (length (segments template) == length (segments actual))
    then false
    else parts_match (segments template) (segments actual)

-- The loop over the sorted keys.
unfoldable pub first_match : Fields → Text → List Text → Option (Text × Fields)
first_match paths actual [] = none
first_match paths actual (key ∷ more) =
    let rest = first_match paths actual more in
    if path_template_matches key actual
    then elim (as_object (get (some paths) key)) [ some item ↦ some (key, item) | none ↦ rest ]
    else rest

-- `if targetPath == "" { targetPath = "/" }`
abbrev pub path_of : Text → Text
path_of path = if is_empty path then lit "/" else path

-- The key and the item of the path; `none` where the code returns no item.
unfoldable pub find_open_api_path : Fields → Text → Option (Text × Fields)
unfolding first_match
find_open_api_path paths target_path =
    let actual = path_of target_path in
    elim (as_object (get (some paths) actual)) [
      | some item ↦ some (actual, item)
      | none ↦ first_match paths actual (sort_texts (keys paths))
    ]
