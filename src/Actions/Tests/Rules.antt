-- ===== src/Actions/Tests/Rules.antt =====
-- The guards of a rule: its configuration, the address of its webhook, and what an event carries.
use storage_service.Prelude.{
  ℕ, ◌+◌, ◌*◌, ◌^◌, ◌≡◌, refl, true, false, not, [], ◌∷◌, none, some, arith, All, if◌then◌else◌,
  ◌==◌,
}
use storage_service.Prelude.Outcome.{ok}
use storage_service.Text.{Text, codes, text_eq}
use storage_service.Text.Trim.{strip}
use storage_service.Json.{text, object, Fields, end, field}
use storage_service.Actions.RuleConfig.{
  WebhookConfig, ConfigChange, build_webhook_config, private_urls_kept,
}
use storage_service.Actions.Ssrf.{
  v4, v6, Network, embedded_ipv4, ResolvedWebhookEndpoint, validate_ip, resolve_webhook_endpoint,
}
use storage_service.Actions.Ssrf.Public.{IsPublic, endpoint-IsPublic, embedded_ipv4-carrier}
use storage_service.Actions.Redaction.{
  redact_secrets, without_secrets, sensitive_key, sensitive_string,
}
use storage_service.Actions.Redaction.Clean.{Clean, redact_secrets-Clean}
use storage_service.Actions.Emit.{EventType, Event, Python, emit_event}
use storage_service.Actions.Emit.Emitted.{
  CarriesClean, LeadsTo, emit_event-rules, emit_event-CarriesClean,
}
use storage_service.Actions.Tests.{test_settings, test_db, test_rule, test_client}

abbrev private_config : WebhookConfig
private_config = record test_rule.config { allow_private_urls = true }

abbrev same_url : ConfigChange
same_url = record {
  url = some (codes " https://example.com/hook ");
  secret = some [];
  authorization_header = none;
  allow_private_urls = some true;
  is_superuser = false;
  partial = false;
}

test_built : build_webhook_config (codes "new") private_config same_url ≡ ok private_config
unfolding build_webhook_config
test_built = refl

private_urls_kept_example :
    (private_config.allow_private_urls ≡ true)
    × (strip private_config.url ≡ strip private_config.url)
private_urls_kept_example =
    private_urls_kept (codes "new") private_config same_url private_config refl test_built refl

-- A network with one public host, and a private address behind NAT64.
abbrev test_network : Network
test_network = record {
  urlparse = λ url. record {
    scheme = codes "https";
    hostname = codes "example.com";
    port = ok none;
    path = codes "/hook";
    query = [];
  };
  lower = λ s. s;
  ip_address = λ s.
      if text_eq s (codes "93.184.216.34")
      then some (v4 1572395042)
      else if text_eq s (codes "10.0.0.1")
      then some (v4 167772161)
      else none;
  is_global = λ ip. elim ip [ v4 n ↦ not (n == 167772161) | v6 n ↦ true ];
  getaddrinfo = λ host port. some ((codes "10.0.0.1", port) ∷ (codes "93.184.216.34", port) ∷ []);
}

abbrev test_endpoint : ResolvedWebhookEndpoint
test_endpoint = record {
  original_url = codes "https://example.com/hook";
  scheme = codes "https";
  connect_host = codes "93.184.216.34";
  port = 443;
  host_header = codes "example.com";
  path = codes "/hook";
}

test_resolved :
    resolve_webhook_endpoint test_network (codes "https://example.com/hook") false
    ≡ ok test_endpoint
unfolding resolve_webhook_endpoint validate_ip
test_resolved = refl

endpoint-IsPublic_example : IsPublic test_network (codes "93.184.216.34")
endpoint-IsPublic_example =
    endpoint-IsPublic test_network (codes "https://example.com/hook") test_endpoint test_resolved

embedded_ipv4-carrier_example :
    (embedded_ipv4 (0xffff * 2 ^ 32 + 167772161) ≡ some (v4 167772161))
    × (embedded_ipv4 (0x64ff9b0000000000000000 * 2 ^ 32 + 167772161) ≡ some (v4 167772161))
    × (embedded_ipv4 (0x2002 * 2 ^ 112 + (167772161 * 2 ^ 80 + 1)) ≡ some (v4 167772161))
embedded_ipv4-carrier_example = embedded_ipv4-carrier 167772161 1 (omega arith) (omega arith)

-- A payload with a token, and with a link that signs in.
abbrev secret_payload : Fields
secret_payload = field (codes "name") (text (codes "a.txt")) (
    field (codes "api-token") (text (codes "t"))
      (field (codes "link") (text (codes "https://x/sign-in?u=1")) end))

abbrev lower_ascii : Text → Text
lower_ascii s = s

abbrev fold_ascii : ℕ → ℕ
fold_ascii c = c

test_redacted :
    redact_secrets lower_ascii fold_ascii (object secret_payload)
    ≡ object (field (codes "name") (text (codes "a.txt")) end)
unfolding redact_secrets without_secrets sensitive_key sensitive_string
test_redacted = refl

redact_secrets-Clean_example :
    Clean lower_ascii fold_ascii (redact_secrets lower_ascii fold_ascii (object secret_payload))
redact_secrets-Clean_example = redact_secrets-Clean lower_ascii fold_ascii (object secret_payload)

abbrev test_python : Python
test_python = record {
  lower = lower_ascii;
  fold = fold_ascii;
  client = test_client;
  recipients = record { is_email = λ s. true; int_of = λ value. none };
  uuid = codes "u1";
  email_uuid = codes "u2";
  time = codes "2026-01-01T00:00:00+00:00";
  now = 10;
  fresh = λ i. i + 100;
}

abbrev test_kind : EventType
test_kind = record { emit_by_default = true; staff_only = false }

abbrev test_event : Event
test_event = record {
  event_type = codes "object.created";
  company_id = 1;
  payload = secret_payload;
  company = record { id = 1; slug = codes "acme"; name = codes "Acme" };
  actor = end;
  force = false;
}

emit_event-rules_example :
    LeadsTo test_kind test_event test_db
      (emit_event test_settings test_python test_kind test_event test_db)
emit_event-rules_example = emit_event-rules test_settings test_python test_kind test_event test_db

emit_event-CarriesClean_example :
    All
      (CarriesClean test_python)
      (emit_event test_settings test_python test_kind test_event test_db).0
emit_event-CarriesClean_example =
    emit_event-CarriesClean test_settings test_python test_kind test_event test_db
