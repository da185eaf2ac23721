-- ===== src/Examples/Audits.antt =====
-- Runs of the audit and its parts, and the theorems at the data of the parent.
use canary.Base.{
  equal_fold, to_upper, is_ascii, ℕ, ◌+◌, ◌≤◌, lit, text_eq, nat_eq, ℕ_discrete, length, trim_space,
  to_lower, pos, set_string, decimal, ok, err, ◌≡◌, ◌↔◌, refl, arith, true, some, [], ◌∷◌, All,
}
use canary.Json.{num, get}
use canary.Report.{status_eq}
use canary.Effect.{dialed, resolved}
use canary.Evidence.{truncate_text}
use canary.Evidence.Bounds.{length-truncate_text}
use canary.Payment.Amount.{positive_amount, atomic_string}
use canary.Payment.Amount.Canonical.{atomic_value, atomic_string_sound}
use canary.Payment.Challenge.{
  parse_payment_challenge, parse_payment_challenge_response, payment_resource_url, parse_option,
  parse_options, read_challenge,
}
use canary.Payment.Challenge.Accepts.{IsWellFormed, read_challenge-IsWellFormed}
use canary.Payment.Select.{
  Wanted, consider_price, consider_asset, consider_terms, consider, matches, conclude, wanted_of,
  select_payment,
}
use canary.Payment.Network.{normalize_network, is_address}
use canary.Payment.Select.Unique.{IsOnly, select_payment-ok_iff}
use canary.Payment.Select.Chosen.{IsChosen, select_payment-IsChosen}
use canary.Payment.Select.Caps.{IsAffordable, select_payment-IsAffordable}
use canary.Payment.Authorize.{check_requirement, check_terms, sign_transfer, authorize}
use canary.Target.{
  validate_url, normalize_addresses, checked_answer, check_url, resolve_and_validate, dial_first,
  dial_all, dial_context,
}
use canary.Target.Address.{v4, is_safe_public_ip}
use canary.Target.Address.Ranges.{Avoids, reserved4, is_safe_public_ip-v4_iff}
use canary.Target.Safety.{IsSafeHistory, IsTarget, dial_context-safe, check_url-ok_iff}
use canary.Auditor.Requests.{
  send, validate_request, build_request, method_of, check_request, Delivery, receive,
}
use canary.Auditor.Requests.Valid.{IsRequest, IsKept, check_request-ok_iff, receive-IsKept}
use canary.Auditor.Scoring.{count_check, count_checks, finalize_report}
use canary.Auditor.Scoring.Bounds.{WithinWeight}
use canary.Auditor.Scoring.Verdicts.{SaysVerdict, finalize_report-SaysVerdict}
use canary.Auditor.Evaluation.{evaluate_outcome}
use canary.Auditor.Evaluation.Laws.{AddsOutcome, evaluate_outcome-AddsOutcome}
use canary.Auditor.Completion.{complete}
use canary.Auditor.Paying.{spend, after_payment, pay}
use canary.Auditor.Flow.{run_job, after_challenge, after_probe, audit}
use canary.Auditor.Flow.Permits.{Allowed}
use canary.Auditor.Flow.Spending.{audit-Allowed}
use canary.Auditor.Flow.Counts.{signature_count, payment_count}
use canary.Auditor.Flow.Once.{audit-once}
use canary.Auditor.Flow.Open.{Reports}
use canary.Auditor.Flow.Reports.{audit-Reports}
use canary.Examples.Inspectors.{fetch, inspector, program_inspector, quiet, fair}
use canary.Examples.{
  report, offer, named, dear, policy, request, raw, challenge, url, target, rebinding, steady, body,
  answer, out, evaluator-IsScoring, auditor,
}
use canary.Auditor.{Outside}
use canary.Auditor.Flow.Faults.{Faults, audit-Faults}

-- Runs.
selected : select_payment (dear ∷ named ∷ []) request policy ≡ ok offer
unfolding select_payment text_eq lit trim_space to_lower set_string wanted_of positive_amount
    ℕ_discrete normalize_network conclude matches consider consider_terms get consider_asset
    is_address consider_price
selected = refl

ambiguous :
    select_payment (offer ∷ named ∷ []) request policy
    ≡ err (lit "multiple safe payment options match; specify payment_network and payment_asset")
unfolding select_payment text_eq lit trim_space to_lower set_string wanted_of positive_amount
    ℕ_discrete normalize_network conclude matches consider consider_terms get consider_asset
    is_address consider_price
ambiguous = refl

parsed_run : read_challenge raw ≡ ok challenge
unfolding challenge read_challenge lit text_eq trim_space set_string decimal ℕ_discrete
    parse_options parse_option atomic_string get payment_resource_url truncate_text
parsed_run = refl

spelled : atomic_string (num (lit "+01000")) ≡ ok (lit "1000")
unfolding atomic_string lit set_string decimal ℕ_discrete
spelled = refl

connected :
    (dial_context steady target (lit "api.example:443") []).1
    ≡ dialed (v4 0x08080808) (lit "443") ∷ resolved (lit "api.example") ∷ []
unfolding dial_context is_safe_public_ip dial_all resolve_and_validate checked_answer
    normalize_addresses ℕ_discrete dial_first
connected = refl

delivery : Delivery
delivery = record {
  response = answer fetch;
  body = lit "a long q";
  latency_ms = 12;
  truncated = true;
}

received : receive out auditor (answer fetch) 12 ≡ ok delivery
unfolding receive delivery lit ℕ_discrete
received = refl

report-WithinWeight : All WithinWeight report.checks
report-WithinWeight = omega arith

report-score : report.score ≤ 100
report-score = omega arith

report-coverage : report.coverage_percent ≤ 100
report-coverage = omega arith

scored : ((finalize_report report).score ≡ 80) × ((finalize_report report).coverage_percent ≡ 50)
unfolding finalize_report count_checks count_check status_eq
scored = (refl, refl)

paid_once : payment_count (audit out inspector auditor request []).1 ≡ 1
unfolding audit validate_request check_request text_eq method_of to_upper trim_space lit ℕ_discrete
    validate_url check_url is_ascii resolve_and_validate checked_answer normalize_addresses
    is_safe_public_ip run_job send build_request receive after_probe
    parse_payment_challenge_response parse_payment_challenge read_challenge parse_option
    parse_options atomic_string get payment_resource_url set_string decimal truncate_text
    after_challenge select_payment wanted_of positive_amount normalize_network conclude matches
    consider consider_terms consider_asset is_address consider_price to_lower spend authorize
    check_requirement check_terms equal_fold sign_transfer pay after_payment complete
    evaluate_outcome
paid_once = refl

-- The theorems.
audit-Allowed_example :
    Allowed request out auditor (audit out program_inspector auditor request []).1
audit-Allowed_example = audit-Allowed out program_inspector auditor request quiet

audit-once_example :
    (signature_count (audit out program_inspector auditor request []).1 ≤ 1)
    × (payment_count (audit out program_inspector auditor request []).1 ≤ 1)
audit-once_example = audit-once out program_inspector auditor request quiet

audit-Reports_example : Reports request (audit out program_inspector auditor request []).0
audit-Reports_example =
    audit-Reports out program_inspector auditor request [] fair evaluator-IsScoring

select_payment-ok_iff_example :
    (select_payment (dear ∷ named ∷ []) request policy ≡ ok offer)
    ↔ ((w : Wanted) × (wanted_of request policy ≡ ok w) × IsOnly policy w offer (dear ∷ named ∷ []))
select_payment-ok_iff_example = select_payment-ok_iff (dear ∷ named ∷ []) request policy offer

select_payment-IsChosen_example : IsChosen (dear ∷ named ∷ []) request policy offer
select_payment-IsChosen_example =
    select_payment-IsChosen (dear ∷ named ∷ []) request policy offer selected

select_payment-IsAffordable_example : IsAffordable request policy offer
select_payment-IsAffordable_example =
    select_payment-IsAffordable (dear ∷ named ∷ []) request policy offer selected

read_challenge-IsWellFormed_example : IsWellFormed raw challenge
read_challenge-IsWellFormed_example = read_challenge-IsWellFormed raw challenge parsed_run

atomic_string_sound_example :
    (n : ℕ) × (atomic_value (num (lit "+01000")) ≡ some (pos n))
    × (lit "1000" ≡ decimal n)
    × (set_string (lit "1000") ≡ some (pos n))
atomic_string_sound_example = atomic_string_sound (num (lit "+01000")) spelled

dial_context-safe_example :
    IsSafeHistory (dial_context rebinding target (lit "api.example:443") []).1
dial_context-safe_example = dial_context-safe rebinding target (lit "api.example:443") [] refl tt

check_url-ok_iff_example : (check_url target url ≡ ok tt) ↔ IsTarget target url
check_url-ok_iff_example = check_url-ok_iff target url

is_safe_public_ip-v4_iff_example :
    (is_safe_public_ip (v4 0x08080808) ≡ true) ↔ All (Avoids 0x08080808) reserved4
is_safe_public_ip-v4_iff_example = is_safe_public_ip-v4_iff 0x08080808

check_request-ok_iff_example :
    (check_request out.json_valid auditor.config request ≡ ok tt)
    ↔ IsRequest out.json_valid auditor.config request
check_request-ok_iff_example = check_request-ok_iff out.json_valid auditor.config request

receive-IsKept_example : IsKept 8 (lit "a long qu") delivery
receive-IsKept_example =
    receive-IsKept out auditor (answer fetch) 12 (lit "a long qu") delivery refl received

finalize_report-SaysVerdict_example :
    SaysVerdict report.tier report.checks (finalize_report report).verdict
finalize_report-SaysVerdict_example = finalize_report-SaysVerdict report

evaluate_outcome-AddsOutcome_example :
    AddsOutcome auditor request 200
      (lit "text/plain")
      body
      []
      report
      (evaluate_outcome auditor report request 200 (lit "text/plain") body []).0
evaluate_outcome-AddsOutcome_example =
    evaluate_outcome-AddsOutcome auditor request 200 (lit "text/plain") body [] report

length-truncate_text_example : length (truncate_text body 6) ≤ 6 + 3
length-truncate_text_example = length-truncate_text body 6

-- A store that is full.
abbrev full : Outside
full = record out { save = λ done h. err (lit "no space left on device") }

audit-Faults_example :
    Faults full auditor request [] (audit full program_inspector auditor request [])
audit-Faults_example = audit-Faults full program_inspector auditor request []
