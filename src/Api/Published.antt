-- ===== src/Api/Published.antt =====
-- The API over the program's own store: what `POST /audit` answers, `GET /reports/{id}` finds
-- (internal/canary/httpapi.go and internal/canary/store.go).
use canary.Base.{
  Text, lit, text_eq, nat_eq, ok, ◌≡◌, refl, ◌∙◌, ap, sym, subst, arith, some, [], ◌∷◌, ◌++◌,
}
use canary.Report.{AuditReport}
use canary.Effect.{History, saved}
use canary.Auditor.{Outside, Auditor}
use canary.Auditor.Checks.{completed}
use canary.Auditor.Flow.Saved.{audit-IsSaved}
use canary.Store.{Files, Disk, file_name, found, save, load}
use canary.Store.Atomic.{IsDisk, load-save}
use canary.Api.{Answer, RequestDecoder, audit_answer, report_answer, handle_audit}
use canary.Api.Answers.{handle_audit-ok_iff}
use canary.Base.{lookup, List, ◌≢◌}
use canary.Auditor.Flow.Saves.{saves_of}
use canary.Store.Atomic.{save-others}
use canary.Spec.Documents.{SpecDecoders}
use canary.Spec.Inspection.{spec_inspector}
use canary.Spec.Inspection.Discovery.{spec_inspector-SavesNothing}

-- The files that the saves of some reports leave, the latest first.
files_of : Disk → Files → List AuditReport → Files
files_of disk files [] = files
files_of disk files (report ∷ reports) = (save disk report (files_of disk files reports)).1

-- The files that a history leaves, from the files at its start.
unfoldable pub files_after : Disk → Files → History → Files
unfolding files_of
files_after disk files h = files_of disk files (saves_of h)

-- The outside with this store as the store of the auditor.
abbrev pub with_store : Disk → Files → Outside → Outside
with_store disk files out = record out {
  save = λ report h. (save disk report (files_after disk files h)).0;
}

-- The answer holds a report, its headers say where the report is, and there it is found; and of the files
-- before, only the file of that report may have changed.
pub record IsPublished (disk : Disk) (before after : Files) (answer : Answer) : Type 0 where
  pub report : AuditReport
  pub answered : answer.report ≡ some report
  pub location : answer.location ≡ lit "/reports/" ++ report.id
  pub served : (report_answer (load disk report.id after)).report ≡ some report
  pub others : (name : Text) → name ≢ file_name report.id → lookup name after ≡ lookup name before

-- The disk reads what is stored, and its decoder reads back what the encoder wrote of the report.
pub record IsReadable (disk : Disk) (report : AuditReport) : Type 0 where
  pub round_trip :
      (encoded : Text)
      → disk.encode report ≡ ok encoded
      → disk.decode (encoded ++ lit "\n") ≡ ok report
  pub readable : (name : Text) (files : Files) → disk.read name files ≡ ok tt

pub audit_answer-report :
    (report : AuditReport) → (audit_answer (completed report)).report ≡ some report
unfolding audit_answer
audit_answer-report report = refl

published :
    (disk : Disk) (files : Files) (report : AuditReport) (h before : History)
    → IsDisk disk
    → saves_of h ≡ saves_of before
    → (save disk report (files_after disk files h)).0 ≡ ok tt
    → load disk report.id (save disk report (files_after disk files h)).1 ≡ found report
    → IsPublished disk
        (files_after disk files before)
        (files_after disk files (saved report ∷ h))
        (audit_answer (completed report))
unfolding files_after audit_answer report_answer
published disk files report h before laws same stored there = record {
  report = report;
  answered = refl;
  location = refl;
  served = rw there refl;
  others = λ name other.
      save-others disk report (files_after disk files h) name laws stored other
      ∙ ap (λ reports. lookup name (files_of disk files reports)) same;
}

module _ (disk : Disk) (files : Files) (decoder : RequestDecoder) (out : Outside) (d : SpecDecoders)
    (auditor : Auditor) where
  -- `POST /audit` over the program's own store and with its own specification review.
  abbrev pub post_audit : Text → History → Answer × History
  post_audit body h =
      let out' = with_store disk files out in
      handle_audit decoder out' (spec_inspector out' auditor d) auditor body h

  -- If `POST /audit` answers with status 200 over the program's own store and with its own specification
  -- review, the answer holds a report and its location, no other file of the store changes, and `GET
  -- /reports/{id}` then answers with the same report, if the disk reads it and the decoder reads back
  -- what the encoder wrote of it.
  pub handle_audit-IsPublished :
      (body : Text) (h : History)
      → IsDisk disk
      → ((report : AuditReport)
          → (post_audit body h).0.report ≡ some report
          → IsReadable disk report)
      → (post_audit body h).0.status ≡ 200
      → IsPublished disk
          (files_after disk files h)
          (files_after disk files (post_audit body h).1)
          (post_audit body h).0
  unfolding handle_audit
  handle_audit-IsPublished body h laws reads done =
      let out' = with_store disk files out in
      let inspector = spec_inspector out' auditor d in
      let (request, report, (read, ended), completes) =
        (handle_audit-ok_iff decoder out' inspector auditor body h).0 done in
      let (h', last, stored, only) =
        audit-IsSaved out' inspector auditor request h (spec_inspector-SavesNothing out' auditor d)
          report completes in
      let same : post_audit body h ≡ (audit_answer (completed report), saved report ∷ h') =
        ground arith in
      let before = files_after disk files h' in
      let it =
        reads report
          (ap (λ (r : Answer × History). r.0.report) same ∙ audit_answer-report report) in
      let there : load disk report.id (save disk report before).1 ≡ found report =
        load-save disk report before laws it.round_trip
          (it.readable (file_name report.id) (save disk report before).1) stored in
      subst
        (λ (r : Answer × History).
          IsPublished disk (files_after disk files h) (files_after disk files r.1) r.0)
        (sym same) (published disk files report h' h laws only stored there)
