-- ===== src/Examples/Inspectors.antt =====
-- Reviews of the specification for the concrete data of the parent: one that is fixed, and the
-- program's own (internal/canary/specsmith.go) on a service with one OpenAPI document.
use canary.Base.{lit, true, none, [], ◌∷◌}
use canary.Json.{str, arr, obj, nil, cons, Fields, end, field}
use canary.Report.{SpecReviewResult, pending, status_eq}
use canary.Effect.{OutgoingRequest, sent}
use canary.Auditor.{Inspector}
use canary.Auditor.Flow.Permits.{QuietInspector}
use canary.Auditor.Flow.Open.{FairInspector}
use canary.Spec.Documents.{SpecDecoders, value, at_end}
use canary.Spec.Verdict.{inspector_of-FairInspector}
use canary.Spec.Inspection.{
  no_operation, no_challenge, tools_of, inspect_specifications, spec_inspector,
}
use canary.Spec.Inspection.Discovery.{spec_inspector-QuietInspector}
use canary.Examples.{url, out, auditor}

abbrev pub review : SpecReviewResult
review = record {
  requested = true;
  status = pending;
  documents = [];
  operation = no_operation;
  challenge = no_challenge;
  findings = [];
  repairs = none;
}

-- A review that fetches one document.
abbrev pub fetch : OutgoingRequest
fetch = record {
  method = lit "GET";
  url = url;
  body = [];
  user_agent = [];
  accept = [];
  content_type = [];
  payment = none;
}

abbrev pub inspector : Inspector
inspector = record {
  Inspection = Unit {0};
  inspect = λ u method b repairs h. (tt, sent fetch ∷ h);
  finalize = λ inspection u terms method. ([], review);
}

abbrev pub operation : Fields
operation = field (lit "summary") (str (lit "A quote")) (
    field (lit "parameters")
      (arr (
        cons
          (obj (
            field (lit "in") (str (lit "query"))
              (field (lit "name") (str (lit "id")) (field (lit "schema") (obj end) end))))
          nil))
      end)

abbrev pub open_api : Fields
open_api = field (lit "openapi") (str (lit "3.1.0")) (
    field (lit "paths")
      (obj (field (lit "/{name}") (obj (field (lit "get") (obj operation) end)) end)) end)

-- Decoders of a service whose documents are all the same OpenAPI document.
abbrev pub spec : SpecDecoders
spec = record {
  decode = λ s. elim s [ [] ↦ at_end | c ∷ s' ↦ value (obj open_api) [] ];
  decode_registration = λ s. none;
}

-- The program's own review.
abbrev pub program_inspector : Inspector
program_inspector = spec_inspector out auditor spec

pub quiet : QuietInspector program_inspector
quiet = spec_inspector-QuietInspector out auditor spec

pub fair : FairInspector program_inspector
fair = inspector_of-FairInspector (tools_of out) (inspect_specifications out auditor spec)
