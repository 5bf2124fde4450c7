-- ===== src/Actions/Ssrf/Public.antt =====
-- apps/actions/ssrf.py: an endpoint of a webhook is a public address, also behind the addresses of
-- IPv6 that carry one of IPv4.
use storage_service.Prelude.{
  ℕ, ◌+◌, ◌*◌, ◌^◌, ◌<◌, ◌≡◌, refl, subst, inl, inr, Bool, true, false, not, ◌||◌, List, [], ◌∷◌,
  Option, none, some, if◌then◌else◌, arith, Bool-cases,
}
use storage_service.Prelude.Outcome.{Outcome, ok, raised}
use storage_service.Text.{Text, codes, text_eq, is_empty}
use storage_service.Text.Trim.{strip}
use storage_service.Actions.Ssrf.{
  Ip, v4, ParsedUrl, Network, SsrfError, embedded_ipv4, tested_ip, validate_ip, first_allowed,
  resolve_infos, connect_to, endpoint_of, with_port, resolve_parsed, blocked_hostname, is_https,
  ResolvedWebhookEndpoint, resolve_webhook_endpoint, or_port, default_port,
}

-- The text is an address, and what is tested of it is public.
abbrev pub IsPublic : Network → Text → Type 0
IsPublic net host =
    (ip : Ip) × (net.ip_address host ≡ some ip) × (net.is_global (tested_ip ip) ≡ true)

module _ (net : Network) where
  -- What holds of the target where there is one.
  abbrev Public : Outcome SsrfError (Text × ℕ) → Type 0
  Public (raised e) = Unit
  Public (ok target) = IsPublic net target.0

  checked-Public :
      (o : Option Ip) (target : Text × ℕ) (later : Outcome SsrfError (Text × ℕ)) (e f : SsrfError)
      → net.ip_address target.0 ≡ o
      → Public later
      → Public (elim o [
        | none ↦ raised e
        | some ip ↦ if validate_ip net false ip then ok target else later
      ])
  unfolding validate_ip
  checked-Public none target later e f found h = tt
  checked-Public (some ip) target later e f found h =
      elim (Bool-cases (net.is_global (tested_ip ip))) [
        | inl public ↦ rw public (ip, found, public)
        | inr private ↦ rw private h
      ]

  first_allowed-Public : (infos : List (Text × ℕ)) → Public (first_allowed net false infos)
  first_allowed-Public [] = tt
  first_allowed-Public (info ∷ infos) =
      checked-Public (net.ip_address info.0) info (first_allowed net false infos) _
        SsrfError.unresolved refl (first_allowed-Public infos)

  resolve_infos-Public : (o : Option (List (Text × ℕ))) → Public (resolve_infos net false o)
  resolve_infos-Public none = tt
  resolve_infos-Public (some []) = tt
  resolve_infos-Public (some (info ∷ infos)) = first_allowed-Public (info ∷ infos)

  connect_to-Public :
      (hostname : Text) (port : ℕ) (o : Option Ip)
      → net.ip_address hostname ≡ o
      → Public (connect_to net false hostname port o)
  unfolding validate_ip
  connect_to-Public hostname port none found = resolve_infos-Public (net.getaddrinfo hostname port)
  connect_to-Public hostname port (some ip) found =
      elim (Bool-cases (net.is_global (tested_ip ip))) [
        | inl public ↦ rw public (ip, found, public)
        | inr private ↦ rw private tt
      ]

  -- What holds of the endpoint where there is one.
  abbrev PublicEndpoint : Outcome SsrfError ResolvedWebhookEndpoint → Type 0
  PublicEndpoint (raised e) = Unit
  PublicEndpoint (ok endpoint) = IsPublic net endpoint.connect_host

  endpoint_of-Public :
      (url : Text) (parsed : ParsedUrl) (hostname : Text) (given : Option ℕ)
      (o : Outcome SsrfError (Text × ℕ))
      → Public o
      → PublicEndpoint (endpoint_of url parsed hostname given o)
  endpoint_of-Public url parsed hostname given (raised e) h = tt
  endpoint_of-Public url parsed hostname given (ok target) h = h

  with_port-Public :
      (url : Text) (parsed : ParsedUrl) (hostname : Text) (port : Outcome (Unit {0}) (Option ℕ))
      → PublicEndpoint (with_port net false url parsed hostname port)
  with_port-Public url parsed hostname (ok given) = endpoint_of-Public url parsed hostname given _ (
      connect_to-Public hostname (or_port given (default_port parsed.scheme))
        (net.ip_address hostname) refl)
  with_port-Public url parsed hostname (raised e) = by_ip (net.ip_address hostname)
    where
      by_ip :
          (o : Option Ip)
          → PublicEndpoint (elim o [
            | none ↦ raised SsrfError.value_error
            | some literal ↦
                if validate_ip net false literal
                then raised SsrfError.value_error
                else raised SsrfError.private_address
          ])
      by_ip none = tt
      by_ip (some literal) = elim (Bool-cases (validate_ip net false literal)) [
        | inl valid ↦ rw valid tt
        | inr refused ↦ rw refused tt
      ]

  guard-Public :
      (b : Bool) (e : SsrfError) (o : Outcome SsrfError ResolvedWebhookEndpoint)
      → PublicEndpoint o
      → PublicEndpoint (if b then raised e else o)
  guard-Public true e o h = tt
  guard-Public false e o h = h

  resolved-Public :
      (url : Text) (parsed : ParsedUrl) → PublicEndpoint (resolve_parsed net false url parsed)
  resolved-Public url parsed =
      let hostname = net.lower parsed.hostname in
      let rest = with_port net false url parsed hostname parsed.port in
      let unblocked =
        if blocked_hostname hostname false then raised SsrfError.localhost else rest in
      let named = if is_empty hostname then raised SsrfError.no_hostname else unblocked in
      let scheme_known = text_eq parsed.scheme (codes "http") || is_https parsed.scheme in
      guard-Public (not scheme_known) SsrfError.bad_scheme named (
        guard-Public (is_empty hostname) SsrfError.no_hostname unblocked (
          guard-Public (blocked_hostname hostname false) SsrfError.localhost rest
            (with_port-Public url parsed hostname parsed.port)))

  -- Where private addresses are not allowed, the address that the connection goes to is a public
  -- address, or an address of IPv6 with an address of IPv4 in it that is public.
  pub endpoint-IsPublic :
      (url : Text) (endpoint : ResolvedWebhookEndpoint)
      → resolve_webhook_endpoint net url false ≡ ok endpoint
      → IsPublic net endpoint.connect_host
  unfolding resolve_webhook_endpoint
  endpoint-IsPublic url endpoint h =
      subst PublicEndpoint h (resolved-Public url (net.urlparse (strip url)))

-- An address of IPv4 is the one that is tested in the addresses of IPv6 that are mapped to it, that
-- NAT64 gives it, and that 6to4 gives its network.
pub embedded_ipv4-carrier :
    (ip below : ℕ)
    → ip < 2 ^ 32
    → below < 2 ^ 80
    → (embedded_ipv4 (0xffff * 2 ^ 32 + ip) ≡ some (v4 ip))
      × (embedded_ipv4 (0x64ff9b0000000000000000 * 2 ^ 32 + ip) ≡ some (v4 ip))
      × (embedded_ipv4 (0x2002 * 2 ^ 112 + (ip * 2 ^ 80 + below)) ≡ some (v4 ip))
unfolding embedded_ipv4
embedded_ipv4-carrier ip below h k = (ground arith, ground arith, ground arith)
