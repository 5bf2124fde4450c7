-- ===== src/Actions/RuleConfig.antt =====
-- apps/actions/rule_config.py. The fields of a configuration that the code reads are a record: a
-- key that is absent and an empty or false value, which the code does not tell apart, are one
-- value. `generated` is a new signing secret, and none is an argument that is not given.
use storage_service.Prelude.{
  ◌≡◌, refl, ap, sym, ◌∙◌, inl, inr, Bool, true, false, not, [], ◌∷◌, Option, none, some, leb,
  if◌then◌else◌, drop, length, ◌-◌, arith, Bool-cases,
}
use storage_service.Prelude.Outcome.{Outcome, ok, raised}
use storage_service.Text.{Text, codes, text_eq, text_eq→eq, is_empty, is_space}
use storage_service.Text.Trim.{strip, strip_by_id, strip_by-Trimmed}

pub record WebhookConfig : Type 0 where
  pub url : Text
  pub secret : Text
  pub authorization_header : Text
  pub allow_private_urls : Bool

-- The arguments of a change.
pub record ConfigChange : Type 0 where
  pub url : Option Text
  pub secret : Option Text
  pub authorization_header : Option Text
  pub allow_private_urls : Option Bool
  pub is_superuser : Bool
  pub partial : Bool

abbrev pub given : Option Text → Text → Text
given none old = old
given (some new) old = new

-- `url if url is not None else cfg.get('url')`, stripped, where it is written.
abbrev pub new_url : WebhookConfig → ConfigChange → Text
new_url existing change = elim change.url [
  | some url ↦ strip url
  | none ↦ if change.partial then existing.url else strip existing.url
]

abbrev pub url_changed : WebhookConfig → Option Text → Bool
url_changed existing none = false
url_changed existing (some url) = not (text_eq (strip url) (strip existing.url))

abbrev pub or_secret : Text → Text → Bool → Text → Text
or_secret [] [] partial generated = if partial then [] else generated
or_secret [] (c ∷ old) partial generated = c ∷ old
or_secret (c ∷ new) old partial generated = c ∷ new

abbrev pub new_secret : Text → WebhookConfig → ConfigChange → Text
new_secret generated existing change = elim change.secret [
  | some secret ↦ or_secret (strip secret) existing.secret change.partial generated
  | none ↦ or_secret [] existing.secret change.partial generated
]

abbrev pub new_authorization : WebhookConfig → Option Text → Text
new_authorization existing none = existing.authorization_header
new_authorization existing (some header) = strip header

abbrev pub new_allow_private : WebhookConfig → ConfigChange → Bool
new_allow_private existing change =
    if change.is_superuser
    then elim change.allow_private_urls [ none ↦ existing.allow_private_urls | some allow ↦ allow ]
    else if url_changed existing change.url
    then false
    else existing.allow_private_urls

pub data ValidationError : Type 0 where
  url_required : ValidationError

unfoldable pub build_webhook_config :
    Text → WebhookConfig → ConfigChange → Outcome ValidationError WebhookConfig
build_webhook_config generated existing change =
    if is_empty (new_url existing change)
    then raised url_required
    else ok (record {
      url = new_url existing change;
      secret = new_secret generated existing change;
      authorization_header = new_authorization existing change.authorization_header;
      allow_private_urls = new_allow_private existing change;
    })

-- `_secret_hint`.
abbrev pub secret_hint : Text → Text
secret_hint secret =
    let s = strip secret in
    if is_empty s then [] else if leb (length s) 4 then codes "****" else drop (length s - 4) s

-- The fields that `mask_config_for_response` sets; the secret and the header are not among them.
pub record MaskedConfig : Type 0 where
  pub url : Text
  pub allow_private_urls : Bool
  pub has_secret : Bool
  pub secret_hint : Text
  pub authorization_header_set : Bool

unfoldable pub mask_config_for_response : WebhookConfig → MaskedConfig
mask_config_for_response config = record {
  url = config.url;
  allow_private_urls = config.allow_private_urls;
  has_secret = not (is_empty config.secret);
  secret_hint = secret_hint config.secret;
  authorization_header_set = not (is_empty config.authorization_header);
}

strip_idem : (s : Text) → strip (strip s) ≡ strip s
strip_idem s = strip_by_id is_space (strip s) (strip_by-Trimmed is_space s)

ok_injective : {E A : Type 0} {a b : A} → ◌≡◌ {A = Outcome E A} (ok a) (ok b) → a ≡ b
ok_injective h = cc

raised-ok : {E A B : Type 0} {e : E} {a : A} → ◌≡◌ {A = Outcome E A} (raised e) (ok a) → B
raised-ok h = cc

built-fields :
    (generated : Text) (existing : WebhookConfig) (change : ConfigChange) (config : WebhookConfig)
    → build_webhook_config generated existing change ≡ ok config
    → record {
      url = new_url existing change;
      secret = new_secret generated existing change;
      authorization_header = new_authorization existing change.authorization_header;
      allow_private_urls = new_allow_private existing change;
    }
      ≡ config
unfolding build_webhook_config
built-fields generated existing change config built =
    elim (Bool-cases (is_empty (new_url existing change))) [
      | inl none_given ↦ raised-ok (rw none_given at built)
      | inr has_url ↦ ok_injective (rw has_url at built)
    ]

kept-user :
    (existing : WebhookConfig) (change : ConfigChange)
    → change.is_superuser ≡ false
    → new_allow_private existing change ≡ true
    → (existing.allow_private_urls ≡ true) × (url_changed existing change.url ≡ false)
kept-user existing change user h = ground arith

url-unchanged :
    (existing : WebhookConfig) (change : ConfigChange)
    → url_changed existing change.url ≡ false
    → strip (new_url existing change) ≡ strip existing.url
url-unchanged existing change = by_url change.url
  where
    by_url :
        (url : Option Text)
        → url_changed existing url ≡ false
        → strip (elim url [
          | some u ↦ strip u
          | none ↦ if change.partial then existing.url else strip existing.url
        ])
          ≡ strip existing.url
    by_url none h = elim (Bool-cases change.partial) [
      | inl part ↦ rw part refl
      | inr whole ↦ rw whole (strip_idem existing.url)
    ]
    by_url (some u) h = strip_idem u ∙ text_eq→eq (strip u) (strip existing.url) (ground arith)

-- Who is not a superuser can only lose the permission for private addresses: a configuration with it
-- has had it before, and its URL, without white space around it, is the one it has had.
pub private_urls_kept :
    (generated : Text) (existing : WebhookConfig) (change : ConfigChange) (config : WebhookConfig)
    → change.is_superuser ≡ false
    → build_webhook_config generated existing change ≡ ok config
    → config.allow_private_urls ≡ true
    → (existing.allow_private_urls ≡ true) × (strip config.url ≡ strip existing.url)
private_urls_kept generated existing change config user built allowed =
    let e = built-fields generated existing change config built in
    let kept = kept-user existing change user (ap (λ c. c.allow_private_urls) e ∙ allowed) in
    (kept.0, ap (λ c. strip c.url) (sym e) ∙ url-unchanged existing change kept.1)
