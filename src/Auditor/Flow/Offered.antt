-- ===== src/Auditor/Flow/Offered.antt =====
-- The challenge that `Audit` (internal/canary/auditor.go) pays, as the answer of the target to the probe.
use canary.Base.{
  nat_eq, ℕ, Text, text_eq, ok, Result-cases, ◌≡◌, inl, inr, refl, arith, none, [], ◌∷◌,
}
use canary.Report.{AuditRequest}
use canary.Effect.{Url, OutgoingRequest, Response, History, sent}
use canary.Payment.{PaymentRequirement, PaymentChallenge}
use canary.Payment.Challenge.{parse_payment_challenge_response}
use canary.Payment.Select.Chosen.{IsChosen}
use canary.Auditor.{Outside, Auditor}
use canary.Auditor.Requests.{Delivery, build_request, receive, send}

-- The last event was a request without a payment header, and the target answered it so.
pub record IsProbed (out : Outside) (auditor : Auditor) (h : History) (probed : Delivery)
    : Type 0 where
  pub probe : OutgoingRequest
  pub earlier : History
  pub response : Response
  pub latency : ℕ
  pub just_sent : h ≡ sent probe ∷ earlier
  pub unpaid : probe.payment ≡ none
  pub answered : out.respond probe earlier ≡ ok response
  pub received : receive out auditor response latency ≡ ok probed

-- That answer has status 402 and holds the challenge.
pub record IsChallenged (out : Outside) (auditor : Auditor) (h : History)
    (challenge : PaymentChallenge) : Type 0 where
  pub probed : Delivery
  pub is_probed : IsProbed out auditor h probed
  pub priced : probed.response.status_code ≡ 402
  pub transport : Text
  pub header : Text
  pub parsed :
      parse_payment_challenge_response out.decoders probed.response.headers probed.body
      ≡ ok (challenge, transport, header)

-- The option is one of that challenge, and meets the request and the operator's policy.
pub record IsOffered (out : Outside) (auditor : Auditor) (request : AuditRequest) (h : History)
    (option : PaymentRequirement) : Type 0 where
  pub challenge : PaymentChallenge
  pub challenged : IsChallenged out auditor h challenge
  pub chosen : IsChosen challenge.accepts request auditor.authorizer.policy option

build_request-unpaid :
    (out : Outside) (auditor : Auditor) (url : Url) (method : Text) (request : AuditRequest)
    (outgoing : OutgoingRequest)
    → build_request out auditor url method request ([], []) ≡ ok outgoing
    → outgoing.payment ≡ none
unfolding build_request
build_request-unpaid out auditor url method request outgoing h = ground arith

pub send-IsProbed :
    (out : Outside) (auditor : Auditor) (url : Url) (method : Text) (request : AuditRequest)
    (h : History) (probed : Delivery)
    → (send out auditor url method request ([], []) h).0 ≡ ok probed
    → IsProbed out auditor (send out auditor url method request ([], []) h).1 probed
unfolding send
send-IsProbed out auditor url method request h probed e =
    elim (Result-cases (build_request out auditor url method request ([], []))) [
      | inr (bad, unbuilt) ↦ absurd (cc (rw (unbuilt, send) at e))
      | inl (outgoing, built) ↦ elim (Result-cases (out.respond outgoing h)) [
        | inr (bad, failed) ↦ absurd (cc (rw (built, failed, send) at e))
        | inl (response, answered) ↦
            rw (built, answered, send)
              (record {
                probe = outgoing;
                earlier = h;
                response = response;
                latency = out.latency_ms (sent outgoing ∷ h);
                just_sent = refl;
                unpaid = build_request-unpaid out auditor url method request outgoing built;
                answered = answered;
                received = rw (built, answered, send) at e;
              })
      ]
    ]
