-- ===== src/Store.antt =====
-- The store of reports (internal/canary/store.go). A directory is a list of files by name; what the
-- operating system may refuse, and the encoder and decoder of JSON, are parameters.
pub mod Atomic
use canary.Base.{
  ℕ, zero, suc, Text, lit, text_eq, nat_eq, leb, lookup, ◌==◌, Result, ok, err, with_context,
  refuse_if, is_empty, ◌>>=◌, ◌>>◌, if◌then◌else◌, Bool, true, false, not, ◌&&◌, ◌||◌, none, some,
  List, [], ◌∷◌, ◌++◌,
}
use canary.Report.{AuditReport}

abbrev pub Files : Type 0
Files = List (Text × Text)

abbrev pub put : Text → Text → Files → Files
put name content files = (name, content) ∷ files

-- The directory without one file.
unfoldable pub remove : Text → Files → Files
remove name [] = []
remove name ((other, content) ∷ files) =
    let rest = remove name files in if other == name then rest else (other, content) ∷ rest

pub record Disk : Type 0 where
  -- `json.MarshalIndent` and `json.Unmarshal` of a report
  pub encode : AuditReport → Result Text
  pub decode : Text → Result AuditReport
  -- `os.CreateTemp` with the pattern ".report-*": the name of a new file
  pub create_temp : Files → Result Text
  pub chmod : Files → Result (Unit {0})
  -- `Write`: what stands in the file then, and the error
  pub write : Text → Files → Text × Result (Unit {0})
  pub sync : Files → Result (Unit {0})
  pub close : Files → Result (Unit {0})
  pub rename : Files → Result (Unit {0})
  -- `os.Remove` of a name
  pub remove_file : Text → Files → Result (Unit {0})
  -- `os.ReadFile` of a file that is there
  pub read : Text → Files → Result (Unit {0})

abbrev is_id_byte : ℕ → Bool
is_id_byte c = (leb b'a' c && leb c b'f') || (leb b'0' c && leb c b'9')

is_id_of : ℕ → Text → Bool
is_id_of zero [] = true
is_id_of zero (c ∷ s) = false
is_id_of (suc n) [] = false
is_id_of (suc n) (c ∷ s) = is_id_byte c && is_id_of n s

-- `reportIDPattern.MatchString`
unfoldable pub is_report_id : Text → Bool
unfolding is_id_of
is_report_id = is_id_of 32

abbrev pub file_name : Text → Text
file_name id = id ++ lit ".json"

-- What `Get` returns: a report, `ErrReportNotFound`, or another error.
pub data Loaded : Type 0 where
  found : AuditReport → Loaded
  not_found : Loaded
  unreadable : Text → Loaded

module _ (disk : Disk) where
  -- The calls on the temporary file between its creation and `Rename`, with its content afterwards.
  fill_temp : Text → Files → Text × Result (Unit {0})
  fill_temp encoded files =
      let (content, written) = disk.write encoded files in
      (
        content,
        do
          with_context (lit "secure temporary report: ") (disk.chmod files)
          with_context (lit "write report: ") written
          with_context (lit "sync report: ") (disk.sync files)
          with_context (lit "close report: ") (disk.close files),
      )

  -- `os.Remove`, whose error is not read: where it fails, the file stays.
  unfoldable pub discard : Text → Files → Files
  discard temp files = elim (disk.remove_file temp files) [
    | err _ ↦ files
    | ok _ ↦ remove temp files
  ]

  -- Behind `CreateTemp`; the deferred `Remove` is the last step of every branch.
  unfoldable pub publish : Text → Text → Text → Files → Result (Unit {0}) × Files
  unfolding fill_temp
  publish id encoded temp files =
      let (content, filled) = fill_temp encoded files in
      let files' = put temp content files in
      elim filled [
        | err e ↦ (err e, discard temp files')
        | ok _ ↦ elim (with_context (lit "publish report: ") (disk.rename files')) [
          | err e ↦ (err e, discard temp files')
          | ok _ ↦ (ok tt, discard temp (put (file_name id) content (remove temp files')))
        ]
      ]

  unfoldable pub save : AuditReport → Files → Result (Unit {0}) × Files
  save report files =
      if not (is_report_id report.id)
      then (err (lit "invalid report id"), files)
      else elim (with_context (lit "encode report: ") (disk.encode report)) [
        | err e ↦ (err e, files)
        | ok encoded ↦
            elim (with_context (lit "create temporary report: ") (disk.create_temp files)) [
              | err e ↦ (err e, files)
              | ok temp ↦ publish report.id (encoded ++ lit "\n") temp files
            ]
      ]

  unfoldable pub load : Text → Files → Loaded
  load id files = if not (is_report_id id) then not_found else elim (lookup (file_name id) files) [
    | none ↦ not_found
    | some content ↦ elim (with_context (lit "read report: ") (disk.read (file_name id) files)) [
      | err e ↦ unreadable e
      | ok _ ↦ elim (with_context (lit "decode report: ") (disk.decode content)) [
        | err e ↦ unreadable e
        | ok report ↦ found report
      ]
    ]
  ]

-- `NewFileStore`, whose directory the operating system may refuse to make.
unfoldable pub new_file_store : (Text → Result (Unit {0})) → Text → Result Text
new_file_store make_dir dir = do
  refuse_if (is_empty dir) (lit "report directory is required")
  with_context (lit "create report directory: ") (make_dir dir)
  ok dir
