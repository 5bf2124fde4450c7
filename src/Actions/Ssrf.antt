-- ===== src/Actions/Ssrf.antt =====
-- apps/actions/ssrf.py. What it calls of Python is the record `Network`: `urlparse` (its port
-- raises ValueError where it is no number up to 65535), `str.lower`, `ipaddress.ip_address`,
-- `is_global` of an address, and `getaddrinfo` (none where it raises `gaierror`).
pub mod Public
use storage_service.Prelude.{
  ℕ, ◌+◌, ◌*◌, ◌/◌, ◌%◌, ◌^◌, ◌<◌, ◌≡◌, refl, ap, Bool, true, false, not, ◌&&◌, ◌||◌, List, [], ◌∷◌,
  ◌++◌, Option, none, some, ◌==◌, if◌then◌else◌, arith,
}
use storage_service.Prelude.Outcome.{Outcome, ok, raised}
use storage_service.Text.{Text, codes, text_eq, is_empty}
use storage_service.Text.Trim.{strip}
use storage_service.Text.Decimal.{str}

pub data Ip : Type 0 where
  v4 v6 : ℕ → Ip

pub record ParsedUrl : Type 0 where
  pub scheme : Text
  pub hostname : Text
  pub port : Outcome Unit (Option ℕ)
  pub path : Text
  pub query : Text

pub record Network : Type 0 where
  pub urlparse : Text → ParsedUrl
  pub lower : Text → Text
  pub ip_address : Text → Option Ip
  pub is_global : Ip → Bool
  pub getaddrinfo : Text → ℕ → Option (List (Text × ℕ))

pub data SsrfError : Type 0 where
  bad_scheme no_hostname localhost private_address unresolved only_private : SsrfError
  value_error : SsrfError

-- `ip in network`, for a network of the given prefix of the 128 bits.
abbrev pub in_network : ℕ → ℕ → ℕ → Bool
in_network prefix length_below ip = (ip / 2 ^ length_below) == prefix

abbrev pub ipv4_of : ℕ → Ip
ipv4_of n = v4 (n % 2 ^ 32)

unfoldable pub embedded_ipv4 : ℕ → Option Ip
embedded_ipv4 ip =
    if in_network 0xffff 32 ip
    then some (ipv4_of ip)
    else if in_network 0x64ff9b0000000000000000 32 ip
    then some (ipv4_of ip)
    else if in_network 0x2002 112 ip
    then some (ipv4_of (ip / 2 ^ 80))
    else if in_network 0 32 ip && not (in_network 0xffff 32 ip)
    then some (ipv4_of ip)
    else none

abbrev pub or_ip : Ip → Option Ip → Ip
or_ip ip none = ip
or_ip ip (some embedded) = embedded

-- The address that is tested: the IPv4 address in an IPv6 address, if there is one.
abbrev pub tested_ip : Ip → Ip
tested_ip (v4 n) = v4 n
tested_ip (v6 n) = or_ip (v6 n) (embedded_ipv4 n)

-- `_validate_ip`: false where it raises.
unfoldable pub validate_ip : Network → Bool → Ip → Bool
validate_ip net allow_private ip = if allow_private then true else net.is_global (tested_ip ip)

abbrev pub blocked_hostname : Text → Bool → Bool
blocked_hostname host allow_private =
    (text_eq host (codes "localhost") || text_eq host (codes "metadata.google.internal"))
    && not allow_private

pub record ResolvedWebhookEndpoint : Type 0 where
  pub original_url : Text
  pub scheme : Text
  pub connect_host : Text
  pub port : ℕ
  pub host_header : Text
  pub path : Text

abbrev pub is_https : Text → Bool
is_https = text_eq (codes "https")

-- `value or default`, for a port: a port 0 is falsy.
abbrev pub or_port : Option ℕ → ℕ → ℕ
or_port none default = default
or_port (some port) default = if port == 0 then default else port

abbrev pub default_port : Text → ℕ
default_port scheme = if is_https scheme then 443 else 80

-- The first address of the answer that may be used.
abbrev pub first_allowed : Network → Bool → List (Text × ℕ) → Outcome SsrfError (Text × ℕ)
first_allowed net allow_private [] = raised only_private
first_allowed net allow_private (info ∷ infos) =
    let later = first_allowed net allow_private infos in
    elim (net.ip_address info.0) [
      | none ↦ raised value_error
      | some ip ↦ if validate_ip net allow_private ip then ok info else later
    ]

abbrev pub resolve_infos : Network → Bool → Option (List (Text × ℕ)) → Outcome SsrfError (Text × ℕ)
resolve_infos net allow_private none = raised unresolved
resolve_infos net allow_private (some []) = raised unresolved
resolve_infos net allow_private (some (info ∷ infos)) =
    first_allowed net allow_private (info ∷ infos)

abbrev pub connect_to : Network → Bool → Text → ℕ → Option Ip → Outcome SsrfError (Text × ℕ)
connect_to net allow_private hostname port (some literal) =
    if validate_ip net allow_private literal then ok (hostname, port) else raised private_address
connect_to net allow_private hostname port none =
    resolve_infos net allow_private (net.getaddrinfo hostname port)

abbrev pub host_header_of : Text → Option ℕ → Text
host_header_of hostname none = hostname
host_header_of hostname (some port) =
    if (port == 0) || (port == 80) || (port == 443)
    then hostname
    else hostname ++ codes ":" ++ str port

abbrev pub with_query : Text → Text → Text
with_query path query =
    let base = if is_empty path then codes "/" else path in
    if is_empty query then base else base ++ codes "?" ++ query

abbrev pub endpoint_of :
    Text
    → ParsedUrl
    → Text
    → Option ℕ
    → Outcome SsrfError (Text × ℕ)
    → Outcome SsrfError ResolvedWebhookEndpoint
endpoint_of url parsed hostname given (raised e) = raised e
endpoint_of url parsed hostname given (ok target) = ok (record {
  original_url = strip url;
  scheme = parsed.scheme;
  connect_host = target.0;
  port = or_port (some target.1) (or_port given (default_port parsed.scheme));
  host_header = host_header_of hostname given;
  path = with_query parsed.path parsed.query;
})

-- `parsed.port` is read only after a literal address has been validated, or before the resolution.
abbrev pub with_port :
    Network
    → Bool
    → Text
    → ParsedUrl
    → Text
    → Outcome Unit (Option ℕ)
    → Outcome SsrfError ResolvedWebhookEndpoint
with_port net allow_private url parsed hostname (raised e) = elim (net.ip_address hostname) [
  | none ↦ raised value_error
  | some literal ↦
      if validate_ip net allow_private literal then raised value_error else raised private_address
]
with_port net allow_private url parsed hostname (ok given) = endpoint_of url parsed hostname given (
    connect_to net allow_private hostname (or_port given (default_port parsed.scheme))
      (net.ip_address hostname))

abbrev pub resolve_parsed :
    Network → Bool → Text → ParsedUrl → Outcome SsrfError ResolvedWebhookEndpoint
resolve_parsed net allow_private url parsed =
    let hostname = net.lower parsed.hostname in
    if not (text_eq parsed.scheme (codes "http") || is_https parsed.scheme)
    then raised bad_scheme
    else if is_empty hostname
    then raised no_hostname
    else if blocked_hostname hostname allow_private
    then raised localhost
    else with_port net allow_private url parsed hostname parsed.port

unfoldable pub resolve_webhook_endpoint :
    Network → Text → Bool → Outcome SsrfError ResolvedWebhookEndpoint
resolve_webhook_endpoint net url allow_private =
    resolve_parsed net allow_private url (net.urlparse (strip url))
