-- ===== src/Spec/Schemas/Queries.antt =====
-- What `queryParameterContract` (internal/canary/specsmith.go) asks of the parameters.
use canary.Base.{
  lit, text_eq, is_empty, ◌≡◌, ◌≢◌, ◌⊎◌, ◌↔◌, inl, inr, refl, arith, Bool, Bool-cases, Option-cases,
  true, false, none, some, [],
}
use canary.Json.{Json, Items, nil, cons, Fields, get, as_object, string_value}
use canary.Spec.Schemas.{items_of, query_contract, query_parameter_contract}
use canary.Spec.Schemas.Levels.{AnyItem, here, there}

abbrev pub IsQuery : Json → Type 0
IsQuery parameter = string_value (get (as_object parameter) (lit "in")) ≡ lit "query"

-- A parameter has a name and a schema that is an object.
abbrev pub IsDeclared : Json → Type 0
IsDeclared parameter =
    (string_value (get (as_object parameter) (lit "name")) ≢ [])
    × ((schema : Fields) × (as_object (get (as_object parameter) (lit "schema")) ≡ some schema))

abbrev pub AllItems : (Json → Type 0) → Items → Type 0
AllItems P nil = Unit
AllItems P (cons item items) = P item × AllItems P items

abbrev pub parameters_of : Fields → Items
parameters_of operation = items_of (get (some operation) (lit "parameters"))

IsDeclared-cases :
    (raw : Json)
    → IsDeclared raw
      ⊎ ((string_value (get (as_object raw) (lit "name")) ≡ [])
          ⊎ (as_object (get (as_object raw) (lit "schema")) ≡ none))
IsDeclared-cases raw =
    elim (Bool-cases (is_empty (string_value (get (as_object raw) (lit "name"))))) [
      | inl unnamed ↦ inr (inl (ground arith))
      | inr named ↦ elim (Option-cases (as_object (get (as_object raw) (lit "schema")))) [
        | inl bare ↦ inr (inr bare)
        | inr (schema, e) ↦ inl (λ empty. ground arith, (schema, e))
      ]
    ]

-- The loop on each kind of parameter.
module _ (found : Bool) (raw : Json) (parameters : Items) where
  step_other :
      ¬ IsQuery raw → query_contract found (cons raw parameters) ≡ query_contract found parameters
  unfolding query_contract
  step_other other = ground arith

  step_declared :
      IsQuery raw
      → IsDeclared raw
      → query_contract found (cons raw parameters) ≡ query_contract true parameters
  unfolding query_contract
  step_declared query (named, (schema, e)) = ground arith

  step_undeclared :
      IsQuery raw
      → (string_value (get (as_object raw) (lit "name")) ≡ [])
        ⊎ (as_object (get (as_object raw) (lit "schema")) ≡ none)
      → query_contract found (cons raw parameters) ≡ (true, false)
  unfolding query_contract
  step_undeclared query (inl unnamed) = ground arith
  step_undeclared query (inr bare) = ground arith

-- What a loop says that found a parameter before, or not.
abbrev Tells : Bool → Items → Bool × Bool → Type 0
Tells found parameters (any, all) =
    ((any ≡ true) ↔ ((found ≡ true) ⊎ AnyItem IsQuery parameters))
    × ((all ≡ true) ↔ (
        ((found ≡ true) ⊎ AnyItem IsQuery parameters)
        × AllItems (λ p. IsQuery p → IsDeclared p) parameters))

Any-cons :
    {raw : Json} {parameters : Items} {P : Json → Type 0}
    → AnyItem P (cons raw parameters)
    → P raw ⊎ AnyItem P parameters
Any-cons (here p) = inl p
Any-cons (there p) = inr p

Tells-other :
    (found : Bool) (raw : Json) (parameters : Items) (r : Bool × Bool)
    → ¬ IsQuery raw
    → Tells found parameters r
    → Tells found (cons raw parameters) r
Tells-other found raw parameters (any, all) other (a, b) =
    let widen : ((found ≡ true) ⊎ AnyItem IsQuery parameters)
        → (found ≡ true) ⊎ AnyItem IsQuery (cons raw parameters) =
      λ x. elim x [ inl f ↦ inl f | inr p ↦ inr (there p) ] in
    let narrow : ((found ≡ true) ⊎ AnyItem IsQuery (cons raw parameters))
        → (found ≡ true) ⊎ AnyItem IsQuery parameters =
      λ x. elim x [
        | inl f ↦ inl f
        | inr p ↦ elim (Any-cons p) [ inl q ↦ absurd (other q) | inr q ↦ inr q ]
      ] in
    (
      (λ e. widen (a.0 e), λ x. a.1 (narrow x)),
      (λ e. (widen (b.0 e).0, (λ q. absurd (other q), (b.0 e).1)), λ x. b.1 (narrow x.0, x.1.1)),
    )

Tells-declared :
    (found : Bool) (raw : Json) (parameters : Items) (r : Bool × Bool)
    → IsQuery raw
    → IsDeclared raw
    → Tells true parameters r
    → Tells found (cons raw parameters) r
Tells-declared found raw parameters (any, all) query declared (a, b) = (
  (λ e. inr (here query), λ x. a.1 (inl refl)),
  (λ e. (inr (here query), (λ q. declared, (b.0 e).1)), λ x. b.1 (inl refl, x.1.1)),
)

Tells-undeclared :
    (found : Bool) (raw : Json) (parameters : Items)
    → IsQuery raw
    → ¬ IsDeclared raw
    → Tells found (cons raw parameters) (true, false)
Tells-undeclared found raw parameters query bare =
    ((λ e. inr (here query), λ x. refl), (λ e. cc, λ x. absurd (bare (x.1.0 query))))

query_contract-Tells :
    (found : Bool) (parameters : Items) → Tells found parameters (query_contract found parameters)
query_contract-Tells found nil =
    unfold query_contract in
    (
      (λ e. inl e, λ x. elim x [ inl e ↦ e | inr p ↦ elim p [ ] ]),
      (λ e. (inl e, tt), λ x. elim x.0 [ inl e ↦ e | inr p ↦ elim p [ ] ]),
    )
query_contract-Tells found (cons raw parameters) =
    elim (text_eq.dec (string_value (get (as_object raw) (lit "in"))) (lit "query")) [
      | no other ↦
          rw (step_other found raw parameters other)
            (Tells-other found raw parameters _ other (query_contract-Tells found parameters))
      | yes query ↦ elim (IsDeclared-cases raw) [
        | inl declared ↦ rw (step_declared found raw parameters query declared) (
            Tells-declared found raw parameters _ query declared
              (query_contract-Tells true parameters))
        | inr bare ↦ rw (step_undeclared found raw parameters query bare) (
            Tells-undeclared found raw parameters query
              (λ (named, (schema, e)). elim bare [ inl u ↦ named u | inr b ↦ cc ]))
      ]
    ]

-- The contract of the query parameters: there is one exactly if some parameter is for the query, and it
-- is concrete exactly if moreover every parameter for the query has a name and a schema.
pub query_parameter_contract_iff :
    (operation : Fields)
    → (((query_parameter_contract operation).0 ≡ true) ↔ AnyItem IsQuery (parameters_of operation))
      × (((query_parameter_contract operation).1 ≡ true) ↔ (
          AnyItem IsQuery (parameters_of operation)
          × AllItems (λ p. IsQuery p → IsDeclared p) (parameters_of operation)))
unfolding query_parameter_contract
query_parameter_contract_iff operation =
    let (a, b) = query_contract-Tells false (parameters_of operation) in
    let only : ((false ≡ true) ⊎ AnyItem IsQuery (parameters_of operation))
        → AnyItem IsQuery (parameters_of operation) =
      λ x. elim x [ inl e ↦ cc | inr p ↦ p ] in
    (
      (λ e. only (a.0 e), λ p. a.1 (inr p)),
      (λ e. (only (b.0 e).0, (b.0 e).1), λ x. b.1 (inr x.0, x.1)),
    )
