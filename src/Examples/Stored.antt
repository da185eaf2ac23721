-- ===== src/Examples/Stored.antt =====
-- Runs of the store and of the API over it, and the theorems at their data.
use canary.Base.{
  false, Text, lit, text_eq, nat_eq, ℕ_discrete, lookup, has_prefix, ok, err, ◌≡◌, refl, arith,
  true, none, some, [],
}
use canary.Report.{AuditReport}
use canary.Store.{is_report_id, publish, Files, Disk, save}
use canary.Store.Atomic.{IsDisk, IsAtomic, save-IsAtomic}
use canary.Api.{RequestDecoder, handle_audit}
use canary.Api.Published.{
  audit_answer-report, files_after, post_audit, IsReadable, IsPublished, handle_audit-IsPublished,
}
use canary.Auditor.Checks.{completed}
use canary.Auditor.Flow.{audit}
use canary.Examples.Inspectors.{spec, program_inspector}
use canary.Examples.{report, request, out, auditor}
use canary.Auditor.{Outside}
use canary.Auditor.Checks.{Outcome, invalid, broken}
use canary.Api.{Answer, audit_answer}
use canary.Base.{to_upper, is_ascii, trim_space}
use canary.Target.{
  validate_url, normalize_addresses, checked_answer, check_url, resolve_and_validate,
}
use canary.Target.Address.{is_safe_public_ip}
use canary.Auditor.Requests.{send, validate_request, build_request, method_of, check_request}
use canary.Auditor.Scoring.{finalize_report}
use canary.Auditor.Completion.{complete}
use canary.Auditor.Flow.{run_job}
use canary.Base.{ap}
use canary.Payment.Authorize.{hex_encode}
use canary.Report.{AuditRequest}
use canary.Base.{◌∙◌, sym, ◌≡◌}
use canary.Auditor.Scoring.{finalize_report}
use canary.Report.{status_eq}
use canary.Auditor.{redacted_url}
use canary.Effect.{History}

-- A directory whose temporary file always has the same name.
abbrev disk : Disk
disk = record {
  encode = λ r. ok (lit "{}");
  decode = λ s. ok report;
  create_temp = λ files. elim (lookup (lit ".report-1") files) [
    | none ↦ ok (lit ".report-1")
    | some content ↦ err (lit "file exists")
  ];
  chmod = λ files. ok tt;
  write = λ bytes files. (bytes, ok tt);
  sync = λ files. ok tt;
  close = λ files. ok tt;
  rename = λ files. ok tt;
  remove_file = λ name files. elim (lookup name files) [
    | none ↦ err (lit "file does not exist")
    | some content ↦ ok tt
  ];
  read = λ name files. ok tt;
}

hidden : has_prefix (lit ".report-") (lit ".report-1") ≡ true
unfolding has_prefix lit ℕ_discrete
hidden = refl

fresh_name :
    (files : Files) (temp : Text)
    → disk.create_temp files ≡ ok temp
    → (lookup temp files ≡ none) × (has_prefix (lit ".report-") temp ≡ true)
fresh_name files temp made = ground (arith, hidden)

disk-IsDisk : IsDisk disk
disk-IsDisk = record { fresh = fresh_name; whole = λ bytes files written. refl }

-- An audit of a target that refuses, whose report the store keeps: its id has 16 bytes, and the decoder
-- knows the report.
abbrev plain : AuditRequest
plain = record request { spec_review = false; pay = false }

abbrev identified : Outside
identified = record out {
  report_bytes = λ h. ok (lit "0123456789abcdef");
  respond = λ outgoing h. err (lit "refused");
}

abbrev decoder : RequestDecoder
decoder = record { decode = λ s. ok plain; ends = λ s. true }

abbrev report_of : Outcome → AuditReport
report_of (completed done) = done
report_of (invalid message) = report
report_of (broken message) = report

abbrev final : AuditReport
final = report_of (audit identified program_inspector auditor plain []).0

abbrev known : Disk
known = record disk { decode = λ s. ok final }

known-IsDisk : IsDisk known
known-IsDisk = record { fresh = fresh_name; whole = λ bytes files written. refl }

abbrev posted : Answer × History
posted = post_audit known [] decoder identified spec auditor (lit "{}") []

answered : posted.0 ≡ audit_answer (completed final)
unfolding handle_audit audit_answer audit validate_request check_request text_eq method_of to_upper
    trim_space lit ℕ_discrete validate_url check_url is_ascii resolve_and_validate checked_answer
    normalize_addresses is_safe_public_ip run_job send build_request complete save publish
    is_report_id hex_encode finalize_report redacted_url files_after
answered = refl

answered-ok : posted.0.status ≡ 200
unfolding audit_answer
answered-ok = ap (λ (a : Answer). a.status) answered

final-IsReadable : (done : AuditReport) → posted.0.report ≡ some done → IsReadable known done
final-IsReadable done e =
    let known_one : some final ≡ some done =
      sym (audit_answer-report final) ∙ (sym (ap (λ (a : Answer). a.report) answered) ∙ e) in
    let same : final ≡ done = cc known_one in
    record { round_trip = λ encoded _. ap ok same; readable = λ name files. refl }

save-IsAtomic_example : IsAtomic disk report [] (save disk report []).0 (save disk report []).1
save-IsAtomic_example = save-IsAtomic disk report [] disk-IsDisk

handle_audit-IsPublished_example :
    IsPublished known (files_after known [] []) (files_after known [] posted.1) posted.0
handle_audit-IsPublished_example =
    handle_audit-IsPublished known [] decoder identified spec auditor (lit "{}") [] known-IsDisk
      final-IsReadable answered-ok
