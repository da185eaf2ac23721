-- ===== src/Target.antt =====
-- The client for untrusted targets (internal/canary/safeclient.go). The URL parser, the address
-- parser, the resolver and the dialer are parameters.
pub mod Address
pub mod Safety
use canary.Base.{
  ℕ, Text, lit, text_eq, nat_eq, length, is_empty, ltb, ◌==◌, trim_set, is_ascii, join, Result, ok,
  err, if◌then◌else◌, Bool, not, ◌&&◌, ◌||◌, List, [], ◌∷◌, ◌++◌,
}
use canary.Effect.{Url, History, Action, resolved, dialed, pure, lift, ◌>>=◌, ◌>>◌}
use canary.Target.Address.{Addr, unmap, is_safe_public_ip}

-- The timeout is in milliseconds.
pub record TargetPolicy : Type 0 where
  pub allow_http : Bool
  pub allow_private_targets : Bool
  pub timeout : ℕ
  pub max_response_bytes : ℕ

pub record Network : Type 0 where
  -- `url.ParseRequestURI`
  pub parse_request_uri : Text → Result Url
  -- `netip.ParseAddr`
  pub parse_addr : Text → Result Addr
  -- `LookupNetIP`
  pub lookup_net_ip : Text → History → Result (List Addr)
  -- `net.SplitHostPort`
  pub split_host_port : Text → Result (Text × Text)
  -- One attempt to connect; its result is the connection, of which the program reads nothing.
  pub dial : Addr → Text → History → Result (Unit {0})

-- The loop over the resolved addresses.
unfoldable pub normalize_addresses : Bool → List Addr → Result (List Addr)
normalize_addresses allow_private [] = ok []
normalize_addresses allow_private (ip ∷ ips) =
    let rest = normalize_addresses allow_private ips in
    let ip' = unmap ip in
    if not allow_private && not (is_safe_public_ip ip')
    then err (lit "target hostname resolves to a prohibited address")
    else elim rest [ err e ↦ err e | ok more ↦ ok (ip' ∷ more) ]

-- What follows the resolver's answer.
unfoldable pub checked_answer : Bool → History → Result (List Addr) → Result (List Addr) × History
checked_answer allow_private h (err e) = (err (lit "resolve target hostname: " ++ e), h)
checked_answer allow_private h (ok []) = (err (lit "target hostname has no addresses"), h)
checked_answer allow_private h (ok (ip ∷ ips)) = (normalize_addresses allow_private (ip ∷ ips), h)

abbrev pub is_bracket : ℕ → Bool
is_bracket c = c == b'[' || c == b']'

-- The tests of `ValidateURL` on a parsed URL, up to the resolver.
unfoldable pub check_url : TargetPolicy → Url → Result (Unit {0})
check_url policy u =
    let plain_http = policy.allow_http && u.scheme == lit "http" in
    if u.has_user
    then err (lit "target url must not contain credentials")
    else if not (is_empty u.fragment)
    then err (lit "target url must not contain a fragment")
    else if not (u.scheme == lit "https") && not plain_http
    then err (lit "target url must use https")
    else if is_empty u.hostname
    then err (lit "target url must include a hostname")
    else if not (is_ascii u.hostname)
    then err (lit "internationalized hostnames must be supplied in ASCII form")
    else if u.scheme == lit "https" && (not (is_empty u.port) && not (u.port == lit "443"))
    then err (lit "https target must use port 443")
    else if u.scheme == lit "http"
        && (not (is_empty u.port) && (not (u.port == lit "80") && not policy.allow_private_targets))
    then err (lit "http target must use port 80")
    else ok tt

module _ (net : Network) where
  unfoldable pub resolve_and_validate : Text → Bool → Action (List Addr)
  resolve_and_validate host allow_private h = elim (net.parse_addr (trim_set is_bracket host)) [
    | ok ip ↦
        let ip' = unmap ip in
        if not allow_private && not (is_safe_public_ip ip')
        then (err (lit "target resolves to a prohibited address"), h)
        else (ok (ip' ∷ []), h)
    | err _ ↦ checked_answer allow_private (resolved host ∷ h) (net.lookup_net_ip host h)
  ]

  parse_url : Text → Result Url
  parse_url raw_url =
      if length raw_url == 0 || ltb 2048 (length raw_url)
      then err (lit "url must be between 1 and 2048 bytes")
      else elim (net.parse_request_uri raw_url) [
        | err e ↦ err (lit "invalid target url: " ++ e)
        | ok u ↦ ok u
      ]

  unfoldable pub validate_url : TargetPolicy → Text → Action Url
  unfolding parse_url
  validate_url policy raw_url = do
    u ← lift (parse_url raw_url)
    lift (check_url policy u)
    _ ← resolve_and_validate u.hostname policy.allow_private_targets
    pure u

  -- The dialer: the addresses in their order, up to the first that connects.
  unfoldable pub dial_first : Text → List Addr → List Text → Action (Unit {0})
  dial_first port [] errs h = (err (lit "connect to validated target: " ++ join (lit "\n") errs), h)
  dial_first port (ip ∷ ips) errs h = elim (net.dial ip port h) [
    | ok _ ↦ (ok tt, dialed ip port ∷ h)
    | err e ↦ dial_first port ips (errs ++ e ∷ []) (dialed ip port ∷ h)
  ]

  -- What follows the resolution.
  unfoldable pub dial_all : Text → Result (List Addr) × History → Result (Unit {0}) × History
  dial_all port (err e, h) = (err e, h)
  dial_all port (ok ips, h) = dial_first port ips [] h

  unfoldable pub dial_context : TargetPolicy → Text → Action (Unit {0})
  dial_context policy address = elim (net.split_host_port address) [
    | err e ↦ lift (err (lit "split target address: " ++ e))
    | ok (host, port) ↦
        λ h. dial_all port (resolve_and_validate host policy.allow_private_targets h)
  ]
