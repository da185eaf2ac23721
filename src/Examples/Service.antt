-- ===== src/Examples/Service.antt =====
-- Runs of the parts around the audit (signer, model, store, API), and the theorems there.
use canary.Base.{
  Text, lit, text_eq, nat_eq, ℕ_discrete, trim_space, pos, ok, ◌≡◌, refl, true, none, some, [], ◌∷◌,
}
use canary.Json.{null, get}
use canary.Report.{SemanticResult}
use canary.Evidence.{truncate_text}
use canary.Payment.Network.{is_address, is_signature}
use canary.Payment.Signer.{
  SignerApi, RemoteSigner, call, signer_address, sign_typed_data, addresses,
}
use canary.Payment.Signer.Pinned.{Returns, addresses-pinned}
use canary.Base.{map, equal_fold}
use canary.Payment.{PaymentChallenge}
use canary.Report.{SpecFinding}
use canary.Spec.Challenge.{UrlTools, same_resource, analyze_challenge}
use canary.Spec.Finalize.{finalize}
use canary.Spec.{with_finding, add_finding, has_code}
use canary.Spec.Verdict.{IsReview, finalize-IsReview}
use canary.Semantic.{
  ModelApi, LiteLlmEvaluator, braced, index, last_index, judge, read_content, read_reply, evaluate,
}
use canary.Semantic.Judgement.{IsJudgement, IsBraced, evaluate-IsJudgement, braced-IsBraced}
use canary.Api.{Server, try_acquire, RequestDecoder, serve_audit}
use canary.Api.Serving.{IsServed, serve_audit-IsServed}
use canary.Api.Capacity.{Reachable, start, enter, IsCounted, Reachable-IsCounted}
use canary.Examples.Inspectors.{review, inspector}
use canary.Examples.{url, offer, request, usdc, payee, out, auditor}
use canary.Base.{List, All, arith}
use canary.Api.{Step, ends, enters, panics}
use canary.Api.Overlaps.{IsOther}

abbrev signature : Text
signature =
    lit
      "0x0123456789abcdef0123456789abcdef0123456789abcdef0123456789abcdef0123456789abcdef0123456789abcdef0123456789abcdef0123456789abcdef1b"

-- A signer whose first key changes between two calls.
abbrev signer_api : Text → SignerApi
signer_api key = record {
  marshal = λ json. ok (lit "{}");
  new_request = λ url. ok tt;
  send_call = λ sent. ok (record { status_code = 200; body = [] });
  decode_keys = λ s. ok (key ∷ []);
  decode_signature = λ s. ok signature;
  path_escape = λ s. s;
}

abbrev new_signer : RemoteSigner
new_signer = record { base_url = lit "http://signer"; token = []; address = [] }

first_wins :
    addresses (signer_api payee ∷ signer_api usdc ∷ []) new_signer ≡ ok payee ∷ ok payee ∷ []
unfolding addresses signer_address call is_address lit ℕ_discrete
first_wins = refl

signs : sign_typed_data (signer_api payee) new_signer payee null ≡ ok signature
unfolding sign_typed_data is_address lit ℕ_discrete call is_signature
signs = refl

-- A model that answers with text around its verdict.
abbrev content : Text
content = lit "Sure: {'passed': {}} done"

abbrev model_api : ModelApi
model_api = record {
  marshal = λ json. ok (lit "{}");
  new_request = λ url. ok tt;
  post = λ url token body h. ok (record {
    status_code = 200;
    decoded = ok (record { model = lit "m"; choices = content ∷ [] });
  });
  decode_verdict = λ s. some (record { passed = true; score = pos 80; reason = lit "a quote" });
}

abbrev evaluator : LiteLlmEvaluator
evaluator = record { base_url = lit "http://model"; token = []; model = lit "m" }

abbrev judgement : SemanticResult
judgement = record {
  attempted = true;
  passed = true;
  score = 80;
  reason = lit "a quote";
  model = lit "m";
  error = [];
}

judged : evaluate model_api evaluator (lit "a quote") [] 200 [] [] ≡ ok judgement
unfolding evaluate read_reply read_content braced index trim_space lit ℕ_discrete last_index judge
    truncate_text
judged = refl

cut : braced content ≡ some (lit "{'passed': {}}")
unfolding braced index lit ℕ_discrete last_index
cut = refl

-- A server that allows one audit.
abbrev busy : Server
busy = record { tokens = 1; running = 7 ∷ [] }

busy-Reachable : Reachable 1 busy
unfolding try_acquire
busy-Reachable = enter 7 start refl

abbrev decoder : RequestDecoder
decoder = record { decode = λ s. ok request; ends = λ s. true }

-- A review of a challenge without metadata for the resource of another host.
abbrev tools : UrlTools
tools = record {
  parse_request_uri = λ s. ok (record url { host = lit "other.example" });
  redact = λ u. lit "https://other.example/quote";
}

abbrev terms : PaymentChallenge
terms = record {
  version = pos 2;
  resource_url = lit "https://other.example/quote";
  accepts = offer ∷ [];
  extensions = none;
}

two_findings :
    map
      (λ (f : SpecFinding). f.code)
      (finalize tools review url (some terms) (lit "POST")).1.findings
    ≡ lit "challenge_resource_mismatch" ∷ lit "bazaar_extension_missing" ∷ []
unfolding finalize analyze_challenge get with_finding add_finding trim_space lit ℕ_discrete text_eq
    same_resource equal_fold has_code
two_findings = refl

-- The theorems.
finalize-IsReview_example :
    IsReview
      (finalize tools review url (some terms) (lit "POST")).0
      (finalize tools review url (some terms) (lit "POST")).1
finalize-IsReview_example = finalize-IsReview tools review url (some terms) (lit "POST")

addresses-pinned_example :
    (key : Text) × ((a : Text)
      → Returns (addresses (signer_api payee ∷ signer_api usdc ∷ []) new_signer) a
      → (a ≡ key) × (is_address a ≡ true))
addresses-pinned_example =
    addresses-pinned (signer_api payee ∷ signer_api usdc ∷ []) new_signer refl

evaluate-IsJudgement_example : IsJudgement judgement
evaluate-IsJudgement_example =
    evaluate-IsJudgement model_api evaluator (lit "a quote") [] 200 [] [] judgement judged

braced-IsBraced_example : IsBraced content (lit "{'passed': {}}")
braced-IsBraced_example = braced-IsBraced content (lit "{'passed': {}}") cut

Reachable-IsCounted_example : IsCounted 1 busy
Reachable-IsCounted_example = Reachable-IsCounted 1 busy-Reachable

-- While audit 8 runs until it panics, audit 7 ends and audit 9 starts.
abbrev others : List Step
others = ends 7 ∷ enters 9 ∷ []

others-IsOther : All (IsOther 8) others
others-IsOther = (λ e. omega (arith, e), (λ e. omega (arith, e), tt))

half_busy-Reachable : Reachable 2 busy
unfolding try_acquire
half_busy-Reachable = enter 7 start refl

serve_audit-IsServed_example :
    IsServed 2 busy others []
      (serve_audit decoder out inspector auditor 2 busy 8 (lit "{}") (panics []) others [])
serve_audit-IsServed_example =
    serve_audit-IsServed decoder out inspector auditor 2 8 (lit "{}") (panics []) others []
      half_busy-Reachable others-IsOther
