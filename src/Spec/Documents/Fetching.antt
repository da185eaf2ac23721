-- ===== src/Spec/Documents/Fetching.antt =====
-- What `fetchSpecDocument` (internal/canary/specsmith.go) asks of the outside.
use mathlib.Core.List.{append_assoc}
use canary.Base.{
  none, nat_eq, trim_set, ℕ, suc, ◌+◌, ◌≤◌, Text, lit, Result, ok, err, ◌≡◌, refl, arith, Bool,
  List, [], ◌∷◌, ◌++◌, ◌∙◌, ap, sym, subst, All, All-append, Result-cases, inl, inr,
}
use canary.Effect.{
  Url, Response, Event, History, resolved, dialed, sent, asked_address, signed, evaluated, saved,
}
use canary.Report.{SpecDocument}
use canary.Target.{
  is_bracket, TargetPolicy, Network, check_url, checked_answer, resolve_and_validate, validate_url,
}
use canary.Target.Address.{Addr}
use canary.Auditor.{Outside, Auditor}
use canary.Spec.Documents.{discovery_request, answered, requested, located, fetch_spec_document}

-- A lookup of a host, or a GET request for a URL that the policy allows, with no body, no content type
-- and no payment header.
abbrev pub IsDiscovery : TargetPolicy → Event → Type 0
IsDiscovery policy (resolved host) = Unit
IsDiscovery policy (sent outgoing) =
    (check_url policy outgoing.url ≡ ok tt)
    × (outgoing.method ≡ lit "GET")
    × (outgoing.body ≡ [])
    × (outgoing.content_type ≡ [])
    × (outgoing.payment ≡ none)
IsDiscovery policy _ = ⊥

abbrev sent_count : List Event → ℕ
sent_count [] = 0
sent_count (sent outgoing ∷ es) = suc (sent_count es)
sent_count (_ ∷ es) = sent_count es

sent_count-append : (es fs : List Event) → sent_count (es ++ fs) ≡ sent_count es + sent_count fs
sent_count-append [] fs = omega arith
sent_count-append (resolved x ∷ es) fs = sent_count-append es fs
sent_count-append (dialed x y ∷ es) fs = sent_count-append es fs
sent_count-append (sent x ∷ es) fs = omega (arith, sent_count-append es fs)
sent_count-append (asked_address ∷ es) fs = sent_count-append es fs
sent_count-append (signed x y ∷ es) fs = sent_count-append es fs
sent_count-append (evaluated x y ∷ es) fs = sent_count-append es fs
sent_count-append (saved x ∷ es) fs = sent_count-append es fs

-- The later history is the earlier one behind at most so many requests, all for discovery.
pub record Discovers (policy : TargetPolicy) (most : ℕ) (h h' : History) : Type 0 where
  pub events : List Event
  pub added : h' ≡ events ++ h
  pub all : All (IsDiscovery policy) events
  pub few : sent_count events ≤ most

module _ (policy : TargetPolicy) where
  Discovers-refl : (n : ℕ) (h : History) → Discovers policy n h h
  Discovers-refl n h = record { events = []; added = refl; all = tt; few = omega arith }

  pub Discovers-trans :
      {m n : ℕ} {h h' h'' : History}
      → Discovers policy m h h'
      → Discovers policy n h' h''
      → Discovers policy (m + n) h h''
  Discovers-trans a b = record {
    events = b.events ++ a.events;
    added = b.added ∙ ap (λ t. b.events ++ t) a.added ∙ sym (append_assoc b.events a.events _);
    all = All-append (IsDiscovery policy) b.events a.events b.all a.all;
    few = omega (arith, sent_count-append b.events a.events);
  }

  Discovers-resolved : (host : Text) (h : History) → Discovers policy 0 h (resolved host ∷ h)
  Discovers-resolved host h = record {
    events = resolved host ∷ [];
    added = refl;
    all = (tt, tt);
    few = omega arith;
  }

  Discovers-sent :
      (u : Url) (h : History)
      → check_url policy u ≡ ok tt
      → Discovers policy 1 h (sent (discovery_request u) ∷ h)
  Discovers-sent u h allowed = record {
    events = sent (discovery_request u) ∷ [];
    added = refl;
    all = ((allowed, refl, refl, refl, refl), tt);
    few = omega arith;
  }

  checked_answer-history :
      (b : Bool) (h : History) (answer : Result (List Addr)) → (checked_answer b h answer).1 ≡ h
  unfolding checked_answer
  checked_answer-history b h (err e) = refl
  checked_answer-history b h (ok []) = refl
  checked_answer-history b h (ok (ip ∷ ips)) = refl

  resolve_and_validate-Discovers :
      (net : Network) (host : Text) (b : Bool) (h : History)
      → Discovers policy 0 h (resolve_and_validate net host b h).1
  unfolding resolve_and_validate
  resolve_and_validate-Discovers net host b h =
      elim (Result-cases (net.parse_addr (trim_set is_bracket host))) [
        | inl (ip, e) ↦ rw (e, resolve_and_validate) (ground (arith, Discovers-refl 0 h))
        | inr (message, e) ↦
            rw (e, resolve_and_validate)
              (subst (Discovers policy 0 h)
                (sym (checked_answer-history b (resolved host ∷ h) (net.lookup_net_ip host h)))
                (Discovers-resolved host h))
      ]

  -- A URL that is returned passes the tests, and only hosts were looked up.
  record IsLocated (h : History) (r : Result Url × History) : Type 0 where
    looked_up : Discovers policy 0 h r.1
    allowed : (u : Url) → r.0 ≡ ok u → check_url policy u ≡ ok tt

  validate_url-IsLocated :
      (net : Network) (raw : Text) (h : History) → IsLocated h (validate_url net policy raw h)
  unfolding validate_url
  validate_url-IsLocated net raw h = record {
    looked_up = grind (arith, resolve_and_validate-Discovers, Discovers-refl 0 h);
    allowed = λ u e. ground arith;
  }

module _ (out : Outside) (auditor : Auditor) where
  abbrev policy_of : TargetPolicy
  policy_of = auditor.target

  answered-history :
      (report : SpecDocument) (h : History) (r : Result Response)
      → (answered out auditor report h r).1 ≡ h
  unfolding answered
  answered-history report h (err e) = refl
  answered-history report h (ok response) = refl

  requested-Discovers :
      (report : SpecDocument) (u : Url) (h : History) (r : Result (Unit {0}))
      → check_url policy_of u ≡ ok tt
      → Discovers policy_of 1 h (requested out auditor report u h r).1
  unfolding requested
  requested-Discovers report u h (err e) allowed = Discovers-refl policy_of 1 h
  requested-Discovers report u h (ok done) allowed =
      subst (Discovers policy_of 1 h)
        (sym (answered-history report (sent (discovery_request u) ∷ h) _))
        (Discovers-sent policy_of u h allowed)

  located-Discovers :
      (report : SpecDocument) (h : History) (r : Result Url × History)
      → IsLocated policy_of h r
      → Discovers policy_of 1 h (located out auditor report r).1
  unfolding located
  located-Discovers report h (err e, h') l =
      Discovers-trans policy_of l.looked_up (Discovers-refl policy_of 1 h')
  located-Discovers report h (ok u, h') l =
      Discovers-trans policy_of l.looked_up
        (requested-Discovers report u h' (out.new_request (lit "GET") u) (l.allowed u refl))

  -- The fetching of a document sends at most one request.
  pub fetch_spec_document-Discovers :
      (target : Url) (kind : Text) (h : History)
      → Discovers policy_of 1 h (fetch_spec_document out auditor target kind h).1
  unfolding fetch_spec_document
  fetch_spec_document-Discovers target kind h =
      located-Discovers _ h _
        (validate_url-IsLocated policy_of out.network (out.url_string target) h)
