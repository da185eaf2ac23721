-- ===== src/Store/Atomic.antt =====
-- What `Save` leaves behind, and what `Get` finds (internal/canary/store.go).
use canary.Base.{
  Text, lit, text_eq, nat_eq, lookup, has_prefix, ◌==◌, Result, ok, err, Result-cases, Bool-cases,
  if◌then◌else◌, ◌≡◌, ◌≢◌, ◌∙◌, inl, inr, refl, ap, arith, true, none, some, [], ◌∷◌, ◌++◌,
}
use canary.Report.{AuditReport}
use canary.Store.{
  Files, Disk, remove, is_report_id, file_name, found, fill_temp, publish, save, load,
}
use canary.Base.{sym, ◌⊎◌}
use canary.Store.{discard}

lookup-remove :
    (name temp : Text) (files : Files)
    → lookup name (remove temp files) ≡ (if name == temp then none else lookup name files)
unfolding remove
lookup-remove name temp [] = ground arith
lookup-remove name temp ((other, content) ∷ files) = ground (arith, lookup-remove name temp files)

-- The documented behaviour of `os.CreateTemp` and of `Write`.
pub record IsDisk (disk : Disk) : Type 0 where
  pub fresh :
      (files : Files) (temp : Text)
      → disk.create_temp files ≡ ok temp
      → (lookup temp files ≡ none) × (has_prefix (lit ".report-") temp ≡ true)
  pub whole :
      (bytes : Text) (files : Files)
      → (disk.write bytes files).1 ≡ ok tt
      → (disk.write bytes files).0 ≡ bytes

-- A temporary name is no name of a report.
temp-differs :
    (id temp : Text)
    → is_report_id id ≡ true
    → has_prefix (lit ".report-") temp ≡ true
    → temp ≢ file_name id
unfolding is_report_id lit has_prefix
temp-differs [] temp valid p same = cc
temp-differs (c ∷ id) [] valid p same = cc
temp-differs (c ∷ id) (d ∷ temp) valid p same = ground arith

-- A file that stays behind a save that failed: its name is new and that of a temporary file, and the
-- operating system refused to remove it.
pub record IsLeft (disk : Disk) (files : Files) (r : Result (Unit {0})) (files' : Files)
    (name : Text) : Type 0 where
  pub e : Text
  pub failed : r ≡ err e
  pub new : lookup name files ≡ none
  pub temporary : has_prefix (lit ".report-") name ≡ true
  pub message : Text
  pub refused : disk.remove_file name files' ≡ err message

-- What a save did to the files.
pub record IsAtomic (disk : Disk) (report : AuditReport) (files : Files) (r : Result (Unit {0}))
    (files' : Files) : Type 0 where
  pub others :
      (name : Text)
      → name ≢ file_name report.id
      → (lookup name files' ≡ lookup name files) ⊎ IsLeft disk files r files' name
  pub published :
      r ≡ ok tt
      → (encoded : Text) × (disk.encode report ≡ ok encoded)
        × (is_report_id report.id ≡ true)
        × (lookup (file_name report.id) files' ≡ some (encoded ++ lit "\n"))
  pub kept :
      (e : Text)
      → r ≡ err e
      → lookup (file_name report.id) files' ≡ lookup (file_name report.id) files

-- Discarding touches one name only, and that name is gone if `Remove` succeeds.
lookup-discard_other :
    (disk : Disk) (name temp : Text) (files : Files)
    → name ≢ temp
    → lookup name (discard disk temp files) ≡ lookup name files
unfolding discard
lookup-discard_other disk name temp files differ =
    elim (Result-cases (disk.remove_file temp files)) [
      | inl (_, done) ↦ rw (done, discard) (ground (arith, lookup-remove name temp files))
      | inr (e, refused) ↦ rw (refused, discard) refl
    ]

lookup-discard_self :
    (disk : Disk) (temp : Text) (files : Files)
    → (lookup temp (discard disk temp files) ≡ none)
      ⊎ ((message : Text) × (disk.remove_file temp (discard disk temp files) ≡ err message))
unfolding discard
lookup-discard_self disk temp files = elim (Result-cases (disk.remove_file temp files)) [
  | inl (_, done) ↦ inl (rw (done, discard) (ground (arith, lookup-remove temp temp files)))
  | inr (e, refused) ↦
      let kept : discard disk temp files ≡ files = rw (refused, discard) refl in
      inr (e, ap (disk.remove_file temp) kept ∙ refused)
]

-- The files behind `Rename` and the last `Remove`.
renamed_files : Disk → Text → Text → Text → Files → Files
renamed_files disk target content temp files =
    discard disk temp ((target, content) ∷ remove temp ((temp, content) ∷ files))

lookup-renamed_target :
    (disk : Disk) (target content temp : Text) (files : Files)
    → temp ≢ target
    → lookup target (renamed_files disk target content temp files) ≡ some content
unfolding renamed_files
lookup-renamed_target disk target content temp files differ =
    lookup-discard_other disk target temp _ (λ e. differ (sym e)) ∙ ground arith

lookup-renamed_other :
    (disk : Disk) (target content temp name : Text) (files : Files)
    → lookup temp files ≡ none
    → temp ≢ target
    → name ≢ target
    → lookup name (renamed_files disk target content temp files) ≡ lookup name files
unfolding renamed_files discard
lookup-renamed_other disk target content temp name files fresh differ other =
    let behind = (target, content) ∷ remove temp ((temp, content) ∷ files) in
    let moved : lookup name behind ≡ lookup name files =
      ground (arith, lookup-remove name temp ((temp, content) ∷ files)) in
    elim (text_eq.dec name temp) [
      | no elsewhere ↦ lookup-discard_other disk name temp behind elsewhere ∙ moved
      | yes same ↦ elim (Result-cases (disk.remove_file temp behind)) [
        | inl (_, done) ↦ rw (done, discard) (ground (arith, lookup-remove name temp behind))
        | inr (e, refused) ↦ rw (refused, discard) moved
      ]
    ]

module _ (disk : Disk) (report : AuditReport) (encoded temp : Text) (files : Files) where
  abbrev Published : Result (Unit {0}) × Files → Type 0
  Published (r, files') = IsAtomic disk report files r files'

  fill_temp_whole :
      IsDisk disk
      → (fill_temp disk encoded files).1 ≡ ok tt
      → (fill_temp disk encoded files).0 ≡ encoded
  unfolding fill_temp
  fill_temp_whole laws filled = laws.whole encoded files (ground arith)

  cleaned-IsAtomic :
      (e content : Text)
      → lookup temp files ≡ none
      → has_prefix (lit ".report-") temp ≡ true
      → temp ≢ file_name report.id
      → IsAtomic disk report files (err e) (discard disk temp ((temp, content) ∷ files))
  cleaned-IsAtomic e content fresh hidden differ =
      let there = (temp, content) ∷ files in
      record {
        others = λ name other. elim (text_eq.dec name temp) [
          | no elsewhere ↦ inl (lookup-discard_other disk name temp there elsewhere ∙ ground arith)
          | yes same ↦ elim (lookup-discard_self disk temp there) [
            | inl gone ↦ inl (ap (λ n. lookup n (discard disk temp there)) same ∙ ground arith)
            | inr (message, refused) ↦ inr (record {
              e = e;
              failed = refl;
              new = ap (λ n. lookup n files) same ∙ fresh;
              temporary = ap (has_prefix (lit ".report-")) same ∙ hidden;
              message = message;
              refused = ap (λ n. disk.remove_file n (discard disk temp there)) same ∙ refused;
            })
          ]
        ];
        published = λ p. cc;
        kept = λ e' p.
            lookup-discard_other disk (file_name report.id) temp there (λ same. differ (sym same))
            ∙ ground arith;
      }

  renamed-IsAtomic :
      (bytes content : Text)
      → disk.encode report ≡ ok bytes
      → is_report_id report.id ≡ true
      → lookup temp files ≡ none
      → temp ≢ file_name report.id
      → content ≡ bytes ++ lit "\n"
      → IsAtomic disk report files
          (ok tt)
          (renamed_files disk (file_name report.id) content temp files)
  renamed-IsAtomic bytes content encodes valid fresh differ whole = record {
    others = λ name other. inl (
        lookup-renamed_other disk (file_name report.id) content temp name files fresh differ other);
    published = λ p. (
      bytes,
      encodes,
      valid,
      lookup-renamed_target disk (file_name report.id) content temp files differ ∙ ap some whole,
    );
    kept = λ e p. cc;
  }

  publish-IsAtomic :
      (bytes : Text)
      → IsDisk disk
      → encoded ≡ bytes ++ lit "\n"
      → disk.encode report ≡ ok bytes
      → is_report_id report.id ≡ true
      → lookup temp files ≡ none
      → has_prefix (lit ".report-") temp ≡ true
      → temp ≢ file_name report.id
      → Published (publish disk report.id encoded temp files)
  unfolding publish renamed_files
  publish-IsAtomic bytes laws same encodes valid fresh hidden differ =
      elim (Result-cases (fill_temp disk encoded files).1) [
        | inr (e, bad) ↦ rw (bad, publish) (cleaned-IsAtomic e _ fresh hidden differ)
        | inl (_, filled) ↦
            elim (Result-cases (disk.rename ((temp, (fill_temp disk encoded files).0) ∷ files))) [
              | inr (e, bad) ↦
                  rw (filled, publish) (rw bad (cleaned-IsAtomic _ _ fresh hidden differ))
              | inl (_, renamed) ↦
                  rw (filled, publish)
                    (rw renamed (
                      renamed-IsAtomic bytes _ encodes valid fresh differ
                        (fill_temp_whole laws filled ∙ same)))
            ]
      ]

unchanged-IsAtomic :
    (disk : Disk) (report : AuditReport) (files : Files) (e : Text)
    → IsAtomic disk report files (err e) files
unchanged-IsAtomic disk report files e = record {
  others = λ name other. inl refl;
  published = λ p. cc;
  kept = λ e' p. refl;
}

-- A save that succeeds has a valid id, leaves the encoded report and a newline in the file of its report,
-- and changes no other file. A save that fails leaves that file as it was, and changes no other one, but
-- that its temporary file stays where the operating system refuses to remove it.
pub save-IsAtomic :
    (disk : Disk) (report : AuditReport) (files : Files)
    → IsDisk disk
    → IsAtomic disk report files (save disk report files).0 (save disk report files).1
unfolding save
save-IsAtomic disk report files laws = elim (Bool-cases (is_report_id report.id)) [
  | inr bad ↦ rw (bad, save) (unchanged-IsAtomic disk report files _)
  | inl valid ↦ elim (Result-cases (disk.encode report)) [
    | inr (e, bad) ↦ rw (valid, bad, save) (unchanged-IsAtomic disk report files _)
    | inl (bytes, encodes) ↦ elim (Result-cases (disk.create_temp files)) [
      | inr (e, bad) ↦ rw (valid, encodes, bad, save) (unchanged-IsAtomic disk report files _)
      | inl (temp, made) ↦
          let (fresh, hidden) = laws.fresh files temp made in
          rw (valid, encodes, made, save)
            (publish-IsAtomic disk report (bytes ++ lit "\n") temp files bytes laws refl encodes
              valid fresh hidden (temp-differs report.id temp valid hidden))
    ]
  ]
]

-- A save that succeeds changes no other file.
pub save-others :
    (disk : Disk) (report : AuditReport) (files : Files) (name : Text)
    → IsDisk disk
    → (save disk report files).0 ≡ ok tt
    → name ≢ file_name report.id
    → lookup name (save disk report files).1 ≡ lookup name files
save-others disk report files name laws saved other =
    elim ((save-IsAtomic disk report files laws).others name other) [
      | inl same ↦ same
      | inr left ↦ absurd (grind (arith, saved, left.failed))
    ]

-- What a successful save has stored is what a load of its id finds, if the file can be read and the
-- decoder reads back what the encoder wrote.
pub load-save :
    (disk : Disk) (report : AuditReport) (files : Files)
    → IsDisk disk
    → ((encoded : Text)
        → disk.encode report ≡ ok encoded
        → disk.decode (encoded ++ lit "\n") ≡ ok report)
    → disk.read (file_name report.id) (save disk report files).1 ≡ ok tt
    → (save disk report files).0 ≡ ok tt
    → load disk report.id (save disk report files).1 ≡ found report
unfolding load
load-save disk report files laws decodes readable saved =
    let (encoded, encodes, valid, there) = (save-IsAtomic disk report files laws).published saved in
    ground (arith, decodes encoded encodes)
