-- ===== src/Spec/Paths/Templates.antt =====
-- When a path fits a template of `pathTemplateMatches` (internal/canary/specsmith.go).
use mathlib.Core.Bool.{and-eq-true_iff}
use canary.Base.{
  ℕ, suc, ◌<◌, not, Text, lit, text_eq, nat_eq, length, length-append, is_empty, ◌==◌, has_prefix,
  has_suffix, has_suffix_sound, has_suffix-append, if◌then◌else◌, ◌≡◌, ◌≢◌, ◌⊎◌, ◌↔◌, inl, inr,
  refl, ap, ◌∙◌, arith, Bool-cases, true, false, List, [], ◌∷◌, ◌++◌,
}
use canary.Spec.Paths.{is_parameter, segments, parts_match, path_template_matches}

-- A parameter is a name in braces, and the name is not empty.
pub record IsParameter (part : Text) : Type 0 where
  pub name : Text
  pub named : name ≢ []
  pub braced : part ≡ b'{' ∷ (name ++ b'}' ∷ [])

-- A part of a path fits a parameter if it is not empty, and else the same part only.
abbrev pub FitsPart : Text → Text → Type 0
FitsPart part actual = (IsParameter part × (actual ≢ [])) ⊎ ((¬ IsParameter part) × (part ≡ actual))

-- As many parts, each of which fits.
abbrev pub FitsParts : List Text → List Text → Type 0
FitsParts [] [] = Unit
FitsParts (part ∷ parts) (actual ∷ actuals) = FitsPart part actual × FitsParts parts actuals
FitsParts _ _ = ⊥

abbrev pub Fits : Text → Text → Type 0
Fits template actual = (template ≡ actual) ⊎ FitsParts (segments template) (segments actual)

braced-is_parameter : (name : Text) → name ≢ [] → is_parameter (b'{' ∷ (name ++ b'}' ∷ [])) ≡ true
unfolding is_parameter has_prefix lit
braced-is_parameter [] named = absurd (named refl)
braced-is_parameter (c ∷ name) named =
    ground (arith, has_suffix-append (b'{' ∷ c ∷ name) (b'}' ∷ []), length-append name (b'}' ∷ []))

suffix_behind :
    (c : ℕ) (s : Text)
    → c ≡ b'{'
    → has_suffix (b'}' ∷ []) (c ∷ s) ≡ true
    → has_suffix (b'}' ∷ []) s ≡ true
unfolding has_suffix
suffix_behind c s e h = ground arith

is_parameter_sound : (part : Text) → is_parameter part ≡ true → IsParameter part
unfolding is_parameter has_prefix lit
is_parameter_sound [] h = cc
is_parameter_sound (c ∷ s) h =
    let opening : c ≡ b'{' = ground arith in
    let (front, e) = has_suffix_sound (b'}' ∷ []) s (suffix_behind c s opening (ground arith)) in
    record {
      name = front;
      named = λ none_there.
          let short : length s ≡ 1 = ap length (e ∙ ap (λ f. f ++ b'}' ∷ []) none_there) in
          let long : 2 < suc (length s) = ground arith in omega arith;
      braced = ap (λ x. x ∷ s) opening ∙ ap (λ t. b'{' ∷ t) e;
    }

is_parameter_iff : (part : Text) → (is_parameter part ≡ true) ↔ IsParameter part
is_parameter_iff part =
    (is_parameter_sound part, λ p. rw p.braced (braced-is_parameter p.name p.named))

is_parameter-false : (part : Text) → is_parameter part ≡ false → ¬ IsParameter part
is_parameter-false part h p = cc ((is_parameter_iff part).1 p)

FitsPart-sound :
    (part actual : Text)
    → (if is_parameter part then not (is_empty actual) else part == actual) ≡ true
    → FitsPart part actual
FitsPart-sound part actual h = elim (Bool-cases (is_parameter part)) [
  | inl holder ↦ inl (is_parameter_sound part holder, λ e. ground arith)
  | inr plain ↦ inr (is_parameter-false part plain, ground arith)
]

FitsPart-complete :
    (part actual : Text)
    → FitsPart part actual
    → (if is_parameter part then not (is_empty actual) else part == actual) ≡ true
FitsPart-complete part [] (inl (p, visible)) = absurd (visible refl)
FitsPart-complete part (c ∷ actual) (inl (p, visible)) = rw ((is_parameter_iff part).1 p) refl
FitsPart-complete part actual (inr (plain, same)) = elim (Bool-cases (is_parameter part)) [
  | inl holder ↦ absurd (plain (is_parameter_sound part holder))
  | inr e ↦ rw e (ground arith)
]

FitsParts-sound :
    (parts actuals : List Text) → parts_match parts actuals ≡ true → FitsParts parts actuals
unfolding parts_match
FitsParts-sound [] [] h = tt
FitsParts-sound [] (actual ∷ actuals) h = cc
FitsParts-sound (part ∷ parts) [] h = cc
FitsParts-sound (part ∷ parts) (actual ∷ actuals) h =
    let (here, more) = (and-eq-true_iff _ _).0 h in
    (FitsPart-sound part actual here, FitsParts-sound parts actuals more)

FitsParts-complete :
    (parts actuals : List Text)
    → FitsParts parts actuals
    → (length parts ≡ length actuals) × (parts_match parts actuals ≡ true)
unfolding parts_match
FitsParts-complete [] [] h = (refl, refl)
FitsParts-complete [] (actual ∷ actuals) h = absurd h
FitsParts-complete (part ∷ parts) [] h = absurd h
FitsParts-complete (part ∷ parts) (actual ∷ actuals) (here, more) =
    let (same, rest) = FitsParts-complete parts actuals more in
    (omega arith, rw (FitsPart-complete part actual here) rest)

-- A path matches a template exactly if it is the template, or if both have equally many parts between
-- their slashes and each part of the path fits: a name in braces is fitted by any part that is not
-- empty, and any other part by itself only.
pub path_template_matches_iff :
    (template actual : Text) → (path_template_matches template actual ≡ true) ↔ Fits template actual
unfolding path_template_matches
path_template_matches_iff template actual = (
  λ h. elim (text_eq.dec template actual) [
    | yes same ↦ inl same
    | no differ ↦ inr (FitsParts-sound (segments template) (segments actual) (ground arith))
  ],
  λ fits. elim fits [
    | inl same ↦ ground arith
    | inr parts ↦
        let (many, matching) = FitsParts-complete (segments template) (segments actual) parts in
        ground arith
  ],
)
