-- ===== src/Spec/Refs/Chains.antt =====
-- What `resolveObject` (internal/canary/specsmith.go) finds.
use canary.Base.{
  ℕ, zero, suc, ◌+◌, ◌-◌, ◌≤◌, ◌<◌, ◌≡◌, ◌↔◌, refl, arith, Option-cases, inl, inr, none, some,
}
use canary.Json.{Json, Fields, as_object}
use canary.Spec.Refs.{local_target, resolve_within, resolve_object}

-- The value leads, over so many references, to an object whose own reference leads nowhere.
pub data Leads (document : Fields) : ℕ → Json → Fields → Type 0 where
  rests :
      {raw : Json} {object : Fields}
      → as_object raw ≡ some object
      → local_target document object ≡ none
      → Leads document zero raw object
  refers :
      {n : ℕ} {raw current : Json} {object result : Fields}
      → as_object raw ≡ some object
      → local_target document object ≡ some current
      → Leads document n current result
      → Leads document (suc n) raw result

module _ (document : Fields) where
  pub resolve_within_sound :
      (fuel : ℕ) (raw : Json) (result : Fields)
      → resolve_within document fuel raw ≡ some result
      → (n : ℕ) × (n < fuel) × Leads document n raw result
  unfolding resolve_within
  resolve_within_sound zero raw result e = cc
  resolve_within_sound (suc fuel) raw result e = elim (Option-cases (as_object raw)) [
    | inl other ↦ cc
    | inr (object, is_object) ↦ elim (Option-cases (local_target document object)) [
      | inl last ↦
          let same : object ≡ result = ground arith in
          (zero, omega arith, rw (← same) (rests is_object last))
      | inr (current, more) ↦
          let (n, below, leads) = resolve_within_sound fuel current result (ground arith) in
          (suc n, omega arith, refers is_object more leads)
    ]
  ]

  pub resolve_within_complete :
      {n : ℕ} {raw : Json} {result : Fields} (fuel : ℕ)
      → Leads document n raw result
      → n < fuel
      → resolve_within document fuel raw ≡ some result
  unfolding resolve_within
  resolve_within_complete zero leads below = absurd (omega arith)
  resolve_within_complete (suc fuel) (rests is_object last) below =
      rw (is_object, last, resolve_within) refl
  resolve_within_complete (suc fuel) (refers is_object more leads) below =
      rw (is_object, more, resolve_within) (resolve_within_complete fuel leads (omega arith))

-- From a depth of at most 8, an object is found exactly if the value leads to it over at most so many
-- references that the depth stays at 8 at most. So a circle of references gives nothing, and ends.
pub resolve_object-some_iff :
    (document : Fields) (raw : Json) (depth : ℕ) (result : Fields)
    → (resolve_object document raw depth ≡ some result)
      ↔ ((n : ℕ) × (n + depth ≤ 8) × Leads document n raw result)
unfolding resolve_object
resolve_object-some_iff document raw depth result = (
  λ e.
      let (n, below, leads) = resolve_within_sound document (9 - depth) raw result e in
      (n, omega arith, leads),
  λ (n, within, leads). resolve_within_complete document (9 - depth) leads (omega arith),
)
