-- ===== src/Auditor/Scoring/Verdicts.antt =====
-- The verdict of `finalizeReport` (internal/canary/auditor.go), from the statuses of the checks.
use canary.Base.{
  Bool, true, false, ◌||◌, Bool-cases, List, [], ◌∷◌, Any, first, later, ◌≡◌, ◌↔◌, ◌⊎◌, inl, inr,
  arith,
}
use canary.Report.{
  Status, warning, failed, status_eq, Check, Tier, probe, verified, Verdict, fail,
  probe_pass_with_warnings, probe_pass, pass_with_warnings, pass, AuditReport,
}
use canary.Auditor.Scoring.{
  Totals, no_totals, is_status, count_check, count_checks, verdict_of, finalize_report,
}

abbrev pub HasStatus : Status → List Check → Type 0
HasStatus s = Any (λ (c : Check). c.status ≡ s)

abbrev any_status : Status → List Check → Bool
any_status s [] = false
any_status s (c ∷ cs) = is_status c.status s || any_status s cs

any_status_sound : (s : Status) (cs : List Check) → any_status s cs ≡ true → HasStatus s cs
any_status_sound s [] h = cc
any_status_sound s (c ∷ cs) h = elim (Bool-cases (is_status c.status s)) [
  | inl same ↦ first (ground arith)
  | inr other ↦ later (any_status_sound s cs (ground arith))
]

any_status_complete : (s : Status) (cs : List Check) → HasStatus s cs → any_status s cs ≡ true
any_status_complete s [] h = elim h [ ]
any_status_complete s (c ∷ cs) (first same) = ground arith
any_status_complete s (c ∷ cs) (later more) = ground (arith, any_status_complete s cs more)

-- The two flags of the loop.
flags-count_checks :
    (t : Totals) (cs : List Check)
    → ((count_checks t cs).has_failure ≡ (t.has_failure || any_status failed cs))
      × ((count_checks t cs).has_warning ≡ (t.has_warning || any_status warning cs))
unfolding count_checks count_check
flags-count_checks t [] = ground arith
flags-count_checks t (c ∷ cs) = ground (arith, flags-count_checks (count_check t c) cs)

-- What each verdict says of the tier and the checks.
pub record SaysVerdict (tier : Tier) (cs : List Check) (v : Verdict) : Type 0 where
  pub failed_iff : (v ≡ fail) ↔ HasStatus failed cs
  pub probe_warned_iff :
      (v ≡ probe_pass_with_warnings)
      ↔ ((tier ≡ probe) × (¬ HasStatus failed cs) × HasStatus warning cs)
  pub probe_passed_iff :
      (v ≡ probe_pass) ↔ ((tier ≡ probe) × (¬ HasStatus failed cs) × (¬ HasStatus warning cs))
  pub warned_iff :
      (v ≡ pass_with_warnings)
      ↔ ((tier ≡ verified) × (¬ HasStatus failed cs) × HasStatus warning cs)
  pub passed_iff :
      (v ≡ pass) ↔ ((tier ≡ verified) × (¬ HasStatus failed cs) × (¬ HasStatus warning cs))

status_dec :
    (s : Status) (cs : List Check)
    → ((any_status s cs ≡ true) × HasStatus s cs) ⊎ ((any_status s cs ≡ false) × (¬ HasStatus s cs))
status_dec s cs = elim (Bool-cases (any_status s cs)) [
  | inl has ↦ inl (has, any_status_sound s cs has)
  | inr lacks ↦ inr (lacks, λ h. cc (any_status_complete s cs h))
]

SaysVerdict_of :
    (tier : Tier) (cs : List Check) (f w : Bool)
    → ((f ≡ true) × HasStatus failed cs) ⊎ ((f ≡ false) × (¬ HasStatus failed cs))
    → ((w ≡ true) × HasStatus warning cs) ⊎ ((w ≡ false) × (¬ HasStatus warning cs))
    → SaysVerdict tier cs (verdict_of tier f w).0
unfolding verdict_of
SaysVerdict_of probe cs true w df dw = ground arith
SaysVerdict_of probe cs false true df dw = ground arith
SaysVerdict_of probe cs false false df dw = ground arith
SaysVerdict_of verified cs true w df dw = ground arith
SaysVerdict_of verified cs false true df dw = ground arith
SaysVerdict_of verified cs false false df dw = ground arith

-- A flag of the loop decides whether some check has the status.
flag_dec :
    (s : Status) (cs : List Check) (flag : Bool)
    → flag ≡ (false || any_status s cs)
    → ((flag ≡ true) × HasStatus s cs) ⊎ ((flag ≡ false) × (¬ HasStatus s cs))
flag_dec s cs flag h = elim (status_dec s cs) [
  | inl (has, some_check) ↦ inl (ground arith, some_check)
  | inr (lacks, no_check) ↦ inr (ground arith, no_check)
]

-- The verdict of a finalised report is FAIL exactly if a check failed. Otherwise it says by the tier
-- whether a payment was made, and whether a check warned.
pub finalize_report-SaysVerdict :
    (report : AuditReport) → SaysVerdict report.tier report.checks (finalize_report report).verdict
unfolding finalize_report
finalize_report-SaysVerdict report =
    let (failure, warned) = flags-count_checks no_totals report.checks in
    SaysVerdict_of report.tier report.checks _ _ (flag_dec failed report.checks _ failure)
      (flag_dec warning report.checks _ warned)
