-- ===== src/Spec/Schemas/Levels.antt =====
-- What makes a schema concrete for `isConcreteSchema` (internal/canary/specsmith.go), level by level.
use mathlib.Core.Bool.{false≢true}
use canary.Base.{
  ℕ_discrete, ℕ, zero, suc, ◌<◌, Text, lit, text_eq, contains, ◌==◌, if◌then◌else◌, ◌≡◌, ◌≢◌, refl,
  sym, ◌∙◌, subst, arith, Bool, true, false, ◌||◌, some, Any,
}
use canary.Json.{Json, obj, Items, cons, Fields, get, get?, as_object, string_value, has_fields}
use canary.Spec.Refs.Chains.{Leads}
use canary.Spec.Schemas.{is_present, items_of, variant_keywords, simple_types}

-- Some item has the property.
pub data AnyItem (P : Json → Type 0) : Items → Type 0 where
  here : {item : Json} {items : Items} → P item → AnyItem P (cons item items)
  there : {item : Json} {items : Items} → AnyItem P items → AnyItem P (cons item items)

-- The value leads, over fewer references than the levels, to an object with the property.
abbrev pub LeadsTo : Fields → ℕ → (Fields → Type 0) → Json → Type 0
LeadsTo document levels P raw =
    (n : ℕ) × (n < levels) × (object : Fields) × Leads document n raw object × P object

abbrev pub type_of : Fields → Text
type_of schema = string_value (get (some schema) (lit "type"))

-- What makes a schema concrete: a variant that is, properties, items that are, a simple type, or a list
-- of values where the type is none of these.
pub data Says (document : Fields) (levels : ℕ) (P : Fields → Type 0) (schema : Fields)
    : Type 0 where
  of_variant :
      Any
        (λ keyword. AnyItem (LeadsTo document levels P) (items_of (get (some schema) keyword)))
        variant_keywords
      → Says document levels P schema
  of_properties :
      type_of schema ≡ lit "object"
      → has_fields (as_object (get (some schema) (lit "properties"))) ≡ true
      → Says document levels P schema
  of_items :
      type_of schema ≡ lit "array"
      → LeadsTo document levels P (get (some schema) (lit "items"))
      → Says document levels P schema
  of_type : contains simple_types (type_of schema) ≡ true → Says document levels P schema
  of_values :
      type_of schema ≢ lit "object"
      → type_of schema ≢ lit "array"
      → (is_present (get? (some schema) (lit "enum"))
          || is_present (get? (some schema) (lit "const")))
        ≡ true
      → Says document levels P schema

-- Concrete within so many levels.
abbrev pub Concrete : Fields → ℕ → Fields → Type 0
Concrete document zero schema = ⊥
Concrete document (suc levels) schema =
    LeadsTo document (suc levels) (Says document levels (Concrete document levels)) (obj schema)

pub ==-true : (a b : Text) → a ≡ b → (a == b) ≡ true
==-true a b e = ground arith

pub ==-false : (a b : Text) → a ≢ b → (a == b) ≡ false
==-false a b n = ground arith

pub array-ne-object : (t : Text) → t ≡ lit "array" → t ≢ lit "object"
unfolding lit
array-ne-object t e o = cc

object_not_simple : contains simple_types (lit "object") ≡ false
unfolding lit text_eq ℕ_discrete
object_not_simple = refl

pub simple-ne-object : (t : Text) → contains simple_types t ≡ true → t ≢ lit "object"
simple-ne-object t h e =
    false≢true (sym object_not_simple ∙ subst (λ u. contains simple_types u ≡ true) e h)

array_not_simple : contains simple_types (lit "array") ≡ false
unfolding lit text_eq ℕ_discrete
array_not_simple = refl

pub simple-ne-array : (t : Text) → contains simple_types t ≡ true → t ≢ lit "array"
simple-ne-array t h e =
    false≢true (sym array_not_simple ∙ subst (λ u. contains simple_types u ≡ true) e h)

pub then_true : (a b : Bool) → b ≡ true → (if a then true else b) ≡ true
then_true a b h = ground arith

pub or_right : (a b : Bool) → b ≡ true → (a || b) ≡ true
or_right a b h = ground arith
