-- ===== src/Target/Safety.antt =====
-- What the client of internal/canary/safeclient.go may connect to, and which URLs it takes.
use canary.Base.{
  Text, lit, text_eq, nat_eq, is_ascii, trim_set, Result, ok, err, Result-cases, Bool-cases, ◌≡◌,
  ◌≢◌, ◌↔◌, ◌⊎◌, inl, inr, arith, true, false, List, [], ◌∷◌, ◌++◌, All,
}
use canary.Effect.{Url, History, Event, resolved, dialed}
use canary.Target.{
  TargetPolicy, Network, normalize_addresses, resolve_and_validate, check_url, dial_first, dial_all,
  dial_context, checked_answer, is_bracket,
}
use canary.Target.Address.{Addr, unmap, is_safe_public_ip}

-- An event is no connection to an address that is not public.
abbrev IsSafeEvent : Event → Type 0
IsSafeEvent (dialed ip port) = is_safe_public_ip ip ≡ true
IsSafeEvent _ = Unit

abbrev pub IsSafeHistory : History → Type 0
IsSafeHistory = All IsSafeEvent

abbrev AllSafe : Result (List Addr) → Type 0
AllSafe (ok ips) = All (λ ip. is_safe_public_ip ip ≡ true) ips
AllSafe (err e) = Unit

normalize_addresses-AllSafe : (ips : List Addr) → AllSafe (normalize_addresses false ips)
unfolding normalize_addresses
normalize_addresses-AllSafe [] = tt
normalize_addresses-AllSafe (ip ∷ ips) = ground (arith, normalize_addresses-AllSafe ips)

checked_answer-safe :
    (h : History) (answer : Result (List Addr))
    → IsSafeHistory h
    → AllSafe (checked_answer false h answer).0 × IsSafeHistory (checked_answer false h answer).1
unfolding checked_answer
checked_answer-safe h (err e) safe = (tt, safe)
checked_answer-safe h (ok []) safe = (tt, safe)
checked_answer-safe h (ok (ip ∷ ips)) safe = (normalize_addresses-AllSafe (ip ∷ ips), safe)

module _ (net : Network) where
  -- A resolution opens no connection, and gives public addresses only.
  resolve_and_validate-safe :
      (host : Text) (h : History)
      → IsSafeHistory h
      → AllSafe (resolve_and_validate net host false h).0
        × IsSafeHistory (resolve_and_validate net host false h).1
  unfolding resolve_and_validate
  resolve_and_validate-safe host h safe =
      elim (Result-cases (net.parse_addr (trim_set is_bracket host))) [
        | inl (ip, literal) ↦ elim (Bool-cases (is_safe_public_ip (unmap ip))) [
          | inl public ↦ rw (literal, resolve_and_validate) (rw public ((public, tt), safe))
          | inr bad ↦ rw (literal, resolve_and_validate) (rw bad (tt, safe))
        ]
        | inr (_, name) ↦
            rw (name, resolve_and_validate)
              (checked_answer-safe (resolved host ∷ h) (net.lookup_net_ip host h) (tt, safe))
      ]

  dial_first-safe :
      (port : Text) (ips : List Addr) (errs : List Text) (h : History)
      → AllSafe (ok ips)
      → IsSafeHistory h
      → IsSafeHistory (dial_first net port ips errs h).1
  unfolding dial_first
  dial_first-safe port [] errs h all safe = safe
  dial_first-safe port (ip ∷ ips) errs h (s, all) safe = elim (Result-cases (net.dial ip port h)) [
    | inl (_, up) ↦ rw (up, dial_first) (s, safe)
    | inr (e, down) ↦
        rw (down, dial_first)
          (dial_first-safe port ips (errs ++ e ∷ []) (dialed ip port ∷ h) all (s, safe))
  ]

  dial_all-safe :
      (port : Text) (found : Result (List Addr) × History)
      → AllSafe found.0 × IsSafeHistory found.1
      → IsSafeHistory (dial_all net port found).1
  unfolding dial_all
  dial_all-safe port (err e, h) (_, safe) = safe
  dial_all-safe port (ok ips, h) (all, safe) = dial_first-safe port ips [] h all safe

  -- Unless private targets are allowed, every connection that the dialer opens or attempts, whatever
  -- the resolver answers at that time, goes to an address that `isSafePublicIP` accepts.
  pub dial_context-safe :
      (policy : TargetPolicy) (address : Text) (h : History)
      → policy.allow_private_targets ≡ false
      → IsSafeHistory h
      → IsSafeHistory (dial_context net policy address h).1
  unfolding dial_context
  dial_context-safe policy address h private safe =
      elim (Result-cases (net.split_host_port address)) [
        | inr (e, bad) ↦ rw (bad, dial_context) safe
        | inl ((host, port), split) ↦
            rw (split, dial_context)
              (rw private (
                dial_all-safe port (resolve_and_validate net host false h)
                  (resolve_and_validate-safe host h safe)))
      ]

-- The URLs that `ValidateURL` takes, before it resolves their host.
pub record IsTarget (policy : TargetPolicy) (u : Url) : Type 0 where
  pub no_user : u.has_user ≡ false
  pub no_fragment : u.fragment ≡ []
  pub scheme : (u.scheme ≡ lit "https") ⊎ ((policy.allow_http ≡ true) × (u.scheme ≡ lit "http"))
  pub hostname : u.hostname ≢ []
  pub ascii : is_ascii u.hostname ≡ true
  pub https_port : u.scheme ≡ lit "https" → (u.port ≡ []) ⊎ (u.port ≡ lit "443")
  pub http_port :
      u.scheme ≡ lit "http"
      → (u.port ≡ []) ⊎ (u.port ≡ lit "80") ⊎ (policy.allow_private_targets ≡ true)

check_url_sound : (policy : TargetPolicy) (u : Url) → check_url policy u ≡ ok tt → IsTarget policy u
unfolding check_url
check_url_sound policy u h = record {
  no_user = ground arith;
  no_fragment = ground arith;
  scheme = ground arith;
  hostname = ground arith;
  ascii = ground arith;
  https_port = ground arith;
  http_port = ground arith;
}

check_url_complete :
    (policy : TargetPolicy) (u : Url) → IsTarget policy u → check_url policy u ≡ ok tt
unfolding check_url
check_url_complete policy u t = ground arith

-- The tests of `ValidateURL` on a parsed URL pass exactly on an https URL with port 443 or none, or,
-- where http is allowed, an http URL with port 80 or none, or any port where private targets are
-- allowed too; with an ASCII hostname, and without credentials and fragment.
pub check_url-ok_iff :
    (policy : TargetPolicy) (u : Url) → (check_url policy u ≡ ok tt) ↔ IsTarget policy u
check_url-ok_iff policy u = (check_url_sound policy u, check_url_complete policy u)
