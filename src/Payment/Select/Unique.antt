-- ===== src/Payment/Select/Unique.antt =====
-- `SelectPayment` (internal/canary/payment.go): the selected option among all options.
use canary.Base.{
  Text, ok, Result-cases, ◌≡◌, ◌∙◌, ◌↔◌, ◌⊎◌, inl, inr, refl, sym, arith, List, [], ◌∷◌, All,
}
use canary.Report.{AuditRequest}
use canary.Payment.{PaymentRequirement, PaymentPolicy}
use canary.Payment.Select.{
  Wanted, Choice, passed_over, rejected, matched, add_match, consider, matches, conclude, wanted_of,
  select_payment,
}
use canary.Payment.Select.Safety.{IsAcceptable, consider-matched_iff}

module _ (policy : PaymentPolicy) (wanted : Wanted) where
  abbrev pub Refused : PaymentRequirement → Type 0
  Refused r = (s : PaymentRequirement) → ¬ IsAcceptable policy wanted r s

  -- Exactly one option of the list is acceptable, and `s` is what it becomes.
  pub data IsOnly (s : PaymentRequirement) : List PaymentRequirement → Type 0 where
    here :
        {r : PaymentRequirement} {rs : List PaymentRequirement}
        → IsAcceptable policy wanted r s
        → All Refused rs
        → IsOnly s (r ∷ rs)
    there :
        {r : PaymentRequirement} {rs : List PaymentRequirement}
        → Refused r
        → IsOnly s rs
        → IsOnly s (r ∷ rs)

  choice_cases :
      (c : Choice)
      → ((s : PaymentRequirement) × (c ≡ matched s))
        ⊎ (((s : PaymentRequirement) → ¬ (c ≡ matched s))
            × ((m : List PaymentRequirement) → add_match c m ≡ m))
  choice_cases passed_over = inr (λ s h. cc, λ m. refl)
  choice_cases (rejected e) = inr (λ s h. cc, λ m. refl)
  choice_cases (matched s) = inl (s, refl)

  -- An option is acceptable, or it is refused and leaves the matches as they are.
  option_cases :
      (r : PaymentRequirement)
      → ((s : PaymentRequirement) × (consider policy wanted r ≡ matched s))
        ⊎ (Refused r × ((m : List PaymentRequirement) → add_match (consider policy wanted r) m ≡ m))
  option_cases r = elim (choice_cases (consider policy wanted r)) [
    | inl found ↦ inl found
    | inr (missed, keeps) ↦
        inr (λ s a. missed s ((consider-matched_iff policy wanted r s).1 a), keeps)
  ]

  matches-nil_sound :
      (rs : List PaymentRequirement) → matches policy wanted rs ≡ [] → All Refused rs
  unfolding matches
  matches-nil_sound [] h = tt
  matches-nil_sound (r ∷ rs) h = elim (option_cases r) [
    | inl (s, found) ↦ absurd (cc (rw (found, add_match) at h))
    | inr (refused, keeps) ↦ (refused, matches-nil_sound rs (sym (keeps _) ∙ h))
  ]

  matches-nil_complete :
      (rs : List PaymentRequirement) → All Refused rs → matches policy wanted rs ≡ []
  unfolding matches
  matches-nil_complete [] h = refl
  matches-nil_complete (r ∷ rs) (refused, h) = elim (option_cases r) [
    | inl (s, found) ↦ absurd (refused s ((consider-matched_iff policy wanted r s).0 found))
    | inr (_, keeps) ↦ keeps _ ∙ matches-nil_complete rs h
  ]

  matches-one_sound :
      (rs : List PaymentRequirement) (s : PaymentRequirement)
      → matches policy wanted rs ≡ s ∷ []
      → IsOnly s rs
  unfolding matches
  matches-one_sound [] s h = absurd (cc)
  matches-one_sound (r ∷ rs) s h = elim (option_cases r) [
    | inl (s', found) ↦
        here ((consider-matched_iff policy wanted r s).0 (ground arith))
          (matches-nil_sound rs (ground arith))
    | inr (refused, keeps) ↦ there refused (matches-one_sound rs s (sym (keeps _) ∙ h))
  ]

  matches-one_complete :
      {s : PaymentRequirement} {rs : List PaymentRequirement}
      → IsOnly s rs
      → matches policy wanted rs ≡ s ∷ []
  unfolding matches
  matches-one_complete {s} (here {r} {rs} a none) =
      let found = (consider-matched_iff policy wanted r s).1 a in
      rw (found, add_match) (rw (matches-nil_complete rs none))
  matches-one_complete {s} (there {r} {rs} refused only) = elim (option_cases r) [
    | inl (s', found) ↦ absurd (refused s' ((consider-matched_iff policy wanted r s').0 found))
    | inr (_, keeps) ↦ keeps _ ∙ matches-one_complete only
  ]

  pub matches-one_iff :
      (rs : List PaymentRequirement) (s : PaymentRequirement)
      → (matches policy wanted rs ≡ s ∷ []) ↔ IsOnly s rs
  matches-one_iff rs s = (matches-one_sound rs s, matches-one_complete)

conclude-ok_iff :
    (ms : List PaymentRequirement) (es : List Text) (s : PaymentRequirement)
    → (conclude ms es ≡ ok s) ↔ (ms ≡ s ∷ [])
unfolding conclude
conclude-ok_iff [] [] s = (λ h. cc, λ h. cc)
conclude-ok_iff [] (e ∷ es) s = (λ h. cc, λ h. cc)
conclude-ok_iff (r ∷ []) es s = (λ h. cc, λ h. cc)
conclude-ok_iff (r ∷ r' ∷ rs) es s = (λ h. cc, λ h. cc)

-- `SelectPayment` returns an option exactly when the request and the operator state valid caps and
-- wishes, and the option is the only acceptable one of the list, with its network normalised.
pub select_payment-ok_iff :
    (rs : List PaymentRequirement) (request : AuditRequest) (policy : PaymentPolicy)
    (s : PaymentRequirement)
    → (select_payment rs request policy ≡ ok s)
      ↔ ((wanted : Wanted) × (wanted_of request policy ≡ ok wanted) × IsOnly policy wanted s rs)
unfolding select_payment
select_payment-ok_iff rs request policy s = (
  λ h. elim (Result-cases (wanted_of request policy)) [
    | inr (e, bad) ↦ absurd (cc (rw (bad, select_payment) at h))
    | inl (wanted, good) ↦
        let only = (conclude-ok_iff _ _ s).0 (rw (good, select_payment) at h) in
        (wanted, good, (matches-one_iff policy wanted rs s).0 only)
  ],
  λ (wanted, good, only).
      rw (good, select_payment)
        ((conclude-ok_iff _ _ s).1 ((matches-one_iff policy wanted rs s).1 only)),
)
