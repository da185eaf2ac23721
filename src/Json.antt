-- ===== src/Json.antt =====
-- Decoded JSON as Go's `any`, with numbers kept as their text (`json.Number`), and the type
-- assertions of internal/canary/payment.go.
use canary.Base.{
  Text, text_eq, ◌==◌, if◌then◌else◌, Bool, true, false, Option, none, some, List, [], ◌∷◌,
}

-- `map[string]any` is a list of fields; the first entry of a key counts.
mutual
  pub data Json : Type 0 where
    null : Json
    bool : Bool → Json
    num : Text → Json
    str : Text → Json
    arr : Items → Json
    obj : Fields → Json

  pub data Items : Type 0 where
    nil : Items
    cons : Json → Items → Items

  pub data Fields : Type 0 where
    end : Fields
    field : Text → Json → Fields → Fields

-- A value of type `map[string]any`, where `none` is the nil map.
abbrev pub Object : Type 0
Object = Option Fields

unfoldable pub get_field : Text → Fields → Option Json
get_field key end = none
get_field key (field k v fs) = if key == k then some v else get_field key fs

-- `value, ok := object[key]`
unfoldable pub get? : Object → Text → Option Json
unfolding get_field
get? none key = none
get? (some fs) key = get_field key fs

-- The keys of an object, as a loop over the map visits them.
unfoldable pub keys : Fields → List Text
keys end = []
keys (field k v fs) = k ∷ keys fs

-- `object[key]`: nil where the key is missing.
unfoldable pub get : Object → Text → Json
unfolding get?
get o key = elim (get? o key) [ none ↦ null | some v ↦ v ]

-- `object, _ := value.(map[string]any)`
abbrev pub as_object : Json → Object
as_object (obj fs) = some fs
as_object _ = none

-- `text, ok := value.(string)`
abbrev pub as_string : Json → Option Text
as_string (str s) = some s
as_string _ = none

-- `stringValue`
abbrev pub string_value : Json → Text
string_value (str s) = s
string_value _ = []

-- `len(object) > 0`
abbrev pub has_fields : Object → Bool
has_fields (some (field k v fs)) = true
has_fields _ = false
