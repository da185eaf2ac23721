-- ===== src/Spec/Paths/Best.antt =====
-- Which path `findOpenAPIPath` (internal/canary/specsmith.go) takes for the target.
use canary.Base.{
  Text, text_eq, sort_texts, ◌≡◌, ◌⊎◌, inl, inr, refl, sym, subst, arith, Bool-cases, Option-cases,
  Option, none, some, List, [], ◌∷◌, first, later, AtMost, AtMost-refl, All-Occurs, IsSorted,
  Occurs, sort_texts-IsSorted, sort_texts-Occurs,
}
use canary.Json.{Fields, end, field, get_field, get?, get, keys, as_object}
use canary.Spec.Paths.{path_of, path_template_matches, first_match, find_open_api_path}
use canary.Spec.Paths.Templates.{Fits, path_template_matches_iff}

-- The key has an object as its item.
abbrev pub Documents : Fields → Text → Fields → Type 0
Documents paths key item = as_object (get (some paths) key) ≡ some item

-- The item is that of the path itself, or there is none and the key is the first in the order of texts
-- whose template the path fits and that has an object.
pub record IsBest (paths : Fields) (actual key : Text) (item : Fields) : Type 0 where
  pub documented : Documents paths key item
  pub fits : Fits key actual
  pub exact : (o : Fields) → Documents paths actual o → key ≡ actual
  pub first :
      (k : Text) (o : Fields) → Documents paths k o → Fits k actual → (key ≡ actual) ⊎ AtMost key k

abbrev pub FindsBest : Fields → Text → Option (Text × Fields) → Type 0
FindsBest paths actual none = (k : Text) (o : Fields) → Documents paths k o → ¬ Fits k actual
FindsBest paths actual (some (key, item)) = IsBest paths actual key item

Documents-Occurs : (k : Text) (o paths : Fields) → Documents paths k o → Occurs k (keys paths)
unfolding get get? get_field keys
Documents-Occurs k o end d = cc
Documents-Occurs k o (field j v paths) d = elim (text_eq.dec k j) [
  | yes same ↦ first (rw same refl)
  | no differ ↦ later (Documents-Occurs k o paths (ground arith))
]

-- What the loop finds among the sorted keys `ks`.
abbrev FindsFirst : Fields → Text → List Text → Option (Text × Fields) → Type 0
FindsFirst paths actual ks none =
    (k : Text) (o : Fields) → Occurs k ks → Documents paths k o → ¬ Fits k actual
FindsFirst paths actual ks (some (key, item)) =
    Documents paths key item
    × Fits key actual
    × ((k : Text) (o : Fields) → Occurs k ks → Documents paths k o → Fits k actual → AtMost key k)
    × Occurs key ks

-- A key that no path of its own fits leaves the rest.
FindsFirst-skip :
    (paths : Fields) (actual key : Text) (more : List Text) (found : Option (Text × Fields))
    → ((o : Fields) → Documents paths key o → ¬ Fits key actual)
    → FindsFirst paths actual more found
    → FindsFirst paths actual (key ∷ more) found
FindsFirst-skip paths actual key more none no_match f = λ k o i d fits. elim i [
  | first e ↦
      no_match o (subst (λ t. Documents paths t o) (sym e) d)
        (subst (λ t. Fits t actual) (sym e) fits)
  | later i' ↦ f k o i' d fits
]
FindsFirst-skip paths actual key more (some (j, item)) no_match (documented, fits, least, i) = (
  documented,
  fits,
  λ k o at d fits'. elim at [
    | first e ↦ absurd (
        no_match o (subst (λ t. Documents paths t o) (sym e) d)
          (subst (λ t. Fits t actual) (sym e) fits'))
    | later at' ↦ least k o at' d fits'
  ],
  later i,
)

first_match-FindsFirst :
    (paths : Fields) (actual : Text) (ks : List Text)
    → IsSorted ks
    → FindsFirst paths actual ks (first_match paths actual ks)
unfolding first_match
first_match-FindsFirst paths actual [] sorted = λ k o i. elim i [ ]
first_match-FindsFirst paths actual (key ∷ more) (below, sorted) =
    let rest = first_match-FindsFirst paths actual more sorted in
    elim (Bool-cases (path_template_matches key actual)) [
      | inr misses ↦
          rw (misses, first_match)
            (FindsFirst-skip paths actual key more _
              (λ o d fits. cc ((path_template_matches_iff key actual).1 fits)) rest)
      | inl matching ↦ elim (Option-cases (as_object (get (some paths) key))) [
        | inl bare ↦
            rw (matching, bare, first_match)
              (FindsFirst-skip paths actual key more _ (λ o d fits. cc) rest)
        | inr (item, documented) ↦
            rw (matching, documented, first_match)
              (
                documented,
                (path_template_matches_iff key actual).0 matching,
                λ k o i d fits. elim i [
                  | first e ↦ subst (λ t. AtMost key t) e (AtMost-refl key)
                  | later i' ↦ All-Occurs (AtMost key) k more below i'
                ],
                first refl,
              )
      ]
    ]

first_match-FindsBest :
    (paths : Fields) (actual : Text) (found : Option (Text × Fields))
    → as_object (get (some paths) actual) ≡ none
    → FindsFirst paths actual (sort_texts (keys paths)) found
    → FindsBest paths actual found
first_match-FindsBest paths actual none missing f =
    λ k o d fits. f k o (sort_texts-Occurs k (keys paths) (Documents-Occurs k o paths d)) d fits
first_match-FindsBest paths actual (some (key, item)) missing (documented, fits, least, i) =
    record {
      documented = documented;
      fits = fits;
      exact = λ o d. cc;
      first = λ k o d fits'.
          inr (least k o (sort_texts-Occurs k (keys paths) (Documents-Occurs k o paths d)) d fits');
    }

-- The item that is taken for a path is that of the path itself, where it has an object. Otherwise it is
-- that of the first template, in the order of texts, which the path fits and which has an object; and
-- there is none only if the path fits no template that has an object.
pub find_open_api_path-FindsBest :
    (paths : Fields) (target_path : Text)
    → FindsBest paths (path_of target_path) (find_open_api_path paths target_path)
unfolding find_open_api_path
find_open_api_path-FindsBest paths target_path =
    let actual = path_of target_path in
    elim (Option-cases (as_object (get (some paths) actual))) [
      | inl missing ↦
          rw (missing, find_open_api_path)
            (first_match-FindsBest paths actual _ missing
              (first_match-FindsFirst paths actual _ (sort_texts-IsSorted (keys paths))))
      | inr (item, documented) ↦
          rw (documented, find_open_api_path)
            (record {
              documented = documented;
              fits = inl refl;
              exact = λ o d. refl;
              first = λ k o d fits. inl refl;
            })
    ]
