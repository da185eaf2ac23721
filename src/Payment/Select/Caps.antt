-- ===== src/Payment/Select/Caps.antt =====
-- The caps behind a selection of `SelectPayment` (internal/canary/payment.go).
use canary.Base.{
  ℕ, ◌≤◌, ◌<◌, Text, text_eq, trim_space, ok, ◌≡◌, arith, some, List, pos, set_string,
}
use canary.Report.{AuditRequest}
use canary.Payment.{PaymentRequirement, PaymentPolicy}
use canary.Payment.Amount.{positive_amount}
use canary.Payment.Select.{Wanted, wanted_of, select_payment}
use canary.Payment.Select.Safety.{IsSafe}
use canary.Payment.Select.Unique.{IsOnly, here, there, select_payment-ok_iff}

pub IsOnly-IsSafe :
    {policy : PaymentPolicy} {wanted : Wanted} {s : PaymentRequirement}
    {rs : List PaymentRequirement}
    → IsOnly policy wanted s rs
    → IsSafe policy wanted s
IsOnly-IsSafe (here a others) = a.safe
IsOnly-IsSafe (there refused only) = IsOnly-IsSafe only

pub wanted_caps :
    (request : AuditRequest) (policy : PaymentPolicy) (wanted : Wanted)
    → wanted_of request policy ≡ ok wanted
    → (positive_amount (trim_space request.max_payment_atomic) ≡ some wanted.request_max)
      × (positive_amount (trim_space policy.max_atomic_amount) ≡ some wanted.system_max)
      × (wanted.request_max ≤ wanted.system_max)
unfolding wanted_of
wanted_caps request policy wanted h = ground arith

positive_amount_sound :
    (t : Text) (n : ℕ) → positive_amount t ≡ some n → (set_string t ≡ some (pos n)) × (0 < n)
unfolding positive_amount
positive_amount_sound t n h = ground arith

-- What a selection promises about money, said over the texts of the request, the operator's policy
-- and the option.
pub record IsAffordable (request : AuditRequest) (policy : PaymentPolicy) (s : PaymentRequirement)
    : Type 0 where
  pub amount : ℕ
  pub request_cap : ℕ
  pub operator_cap : ℕ
  pub amount_read : set_string s.amount ≡ some (pos amount)
  pub request_read : set_string (trim_space request.max_payment_atomic) ≡ some (pos request_cap)
  pub operator_read : set_string (trim_space policy.max_atomic_amount) ≡ some (pos operator_cap)
  pub positive : 0 < amount
  pub within_request : amount ≤ request_cap
  pub within_operator : request_cap ≤ operator_cap

-- A selected option asks for a positive number of atomic units, at most the cap of the request,
-- which is at most the cap of the operator.
pub select_payment-IsAffordable :
    (rs : List PaymentRequirement) (request : AuditRequest) (policy : PaymentPolicy)
    (s : PaymentRequirement)
    → select_payment rs request policy ≡ ok s
    → IsAffordable request policy s
select_payment-IsAffordable rs request policy s h =
    let (wanted, good, only) = (select_payment-ok_iff rs request policy s).0 h in
    let safe = IsOnly-IsSafe only in
    let (request_max, system_max, ordered) = wanted_caps request policy wanted good in
    let (read, positive) = positive_amount_sound _ _ safe.amount_read in
    record {
      amount = safe.amount;
      request_cap = wanted.request_max;
      operator_cap = wanted.system_max;
      amount_read = read;
      request_read = (positive_amount_sound _ _ request_max).0;
      operator_read = (positive_amount_sound _ _ system_max).0;
      positive = positive;
      within_request = safe.within_request;
      within_operator = ordered;
    }
