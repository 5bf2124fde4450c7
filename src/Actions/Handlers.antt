-- ===== src/Actions/Handlers.antt =====
-- What an attempt sends and what its answer means: apps/actions/handlers/webhook.py,
-- `_perform_http_delivery` of apps/actions/delivery.py, and the request of
-- apps/actions/email_service.py. The HTTP client, JSON, HMAC and the clock are the record `Client`.
pub mod Answers
use storage_service.Prelude.{
  ℕ, ◌+◌, Bool, true, false, not, ◌&&◌, ◌||◌, List, [], ◌∷◌, ◌++◌, Option, none, some, ◌==◌, leb,
  ltb, if◌then◌else◌, max, drop, length,
}
use storage_service.Prelude.Outcome.{Outcome, ok, raised}
use storage_service.Text.{Text, codes, is_empty, text_eq}
use storage_service.Text.Trim.{strip}
use storage_service.Text.Affix.{starts_with}
use storage_service.Text.Decimal.{str}
use storage_service.Json.{
  Json, null, bool, number, text, array, object, Items, nil, cons, Fields, end, field, get,
}
use storage_service.Actions.RuleConfig.{WebhookConfig}
use storage_service.Actions.Models.{ActionRule, ActionSettings}
use storage_service.Actions.Retry.{is_permanent_http_status, honors_retry_after}
use storage_service.Actions.Outbox.{AttemptMeta, Job, fields_of, redact_email_service_secret}

abbrev pub Header : Type 0
Header = Text × Text

pub record Request : Type 0 where
  pub url : Text
  pub body : List ℕ
  pub headers : List Header
  pub allow_private : Bool

-- How `post_webhook_url` ends: with an answer (status, excerpt, `Retry-After`), with a
-- WebhookHTTPError, with an OSError, or with another exception, as its `str` or its class name.
pub data Sent : Type 0 where
  answered : ℕ → Text → Option ℕ → Sent
  http_error : Text → Option ℕ → Text → Bool → Option ℕ → Sent
  os_error : Text → Sent
  other_error : Text → Sent

pub record Client : Type 0 where
  pub post : Request → Sent
  pub encode : Json → List ℕ
  pub encode_body : Fields → List ℕ
  pub sign : Text → List ℕ → Text → List Header
  pub text_of : Json → Text
  pub attribute_error : Text
  pub request_id : Option Text
  pub error_code_of : Text → Text
  pub duration_ms : ℕ

-- `bool(value)`.
abbrev pub truthy : Option Json → Bool
truthy none = false
truthy (some null) = false
truthy (some (bool b)) = b
truthy (some (number n)) = not (n == 0)
truthy (some (text s)) = not (is_empty s)
truthy (some (array nil)) = false
truthy (some (array (cons item items))) = true
truthy (some (object end)) = false
truthy (some (object (field key value fields))) = true

abbrev pub text_or_empty : Client → Option Json → Text
text_or_empty client none = []
text_or_empty client (some value) = if truthy (some value) then client.text_of value else []

abbrev pub request_id_header : Option Text → List Header
request_id_header none = []
request_id_header (some id) =
    if is_empty id || text_eq id (codes "-") then [] else (codes "X-Request-ID", id) ∷ []

abbrev pub authorization : Text → List Header
authorization header = if is_empty header then [] else (codes "Authorization", header) ∷ []

abbrev pub webhook_headers : Client → WebhookConfig → Fields → ℕ → List ℕ → List Header
webhook_headers client config envelope attempt_number body =
    (codes "Content-Type", codes "application/json; charset=utf-8")
      ∷ (codes "User-Agent", codes "shellui-storage-actions/1.0")
      ∷ (codes "X-Shellui-Event", text_or_empty client (get (codes "type") envelope))
      ∷ (codes "X-Shellui-Delivery-Attempt", str (max 1 attempt_number))
      ∷ client.sign (strip config.secret) body (text_or_empty client (get (codes "id") envelope))
    ++ request_id_header client.request_id
    ++ authorization (strip config.authorization_header)

-- `WebhookDeliveryError`, and the other exceptions by their text.
pub record DeliveryError : Type 0 where
  pub message : Text
  pub http_status : Option ℕ
  pub response_excerpt : Text
  pub permanent : Bool
  pub retry_after_seconds : Option ℕ

abbrev pub plain_error : Bool → Text → DeliveryError
plain_error permanent message = record {
  message = message;
  http_status = none;
  response_excerpt = [];
  permanent = permanent;
  retry_after_seconds = none;
}

abbrev pub webhook_result : Sent → Outcome DeliveryError (Unit {0})
webhook_result (answered status excerpt retry_after) =
    if leb 400 status
    then raised (record {
      message = codes "Webhook returned HTTP " ++ str status;
      http_status = some status;
      response_excerpt = excerpt;
      permanent = is_permanent_http_status (some status);
      retry_after_seconds = retry_after;
    })
    else ok tt
webhook_result (http_error message status excerpt permanent retry_after) = raised (record {
  message = message;
  http_status = status;
  response_excerpt = excerpt;
  permanent = permanent || is_permanent_http_status status;
  retry_after_seconds = retry_after;
})
webhook_result (os_error message) = raised (plain_error false message)
webhook_result (other_error message) = raised (plain_error false message)

abbrev pub webhook_request : Client → ActionSettings → WebhookConfig → Json → Fields → ℕ → Request
webhook_request client settings config envelope fields attempt_number =
    let body = client.encode envelope in
    record {
      url = strip config.url;
      body = body;
      headers = webhook_headers client config fields attempt_number body;
      allow_private = settings.webhook_allow_private || config.allow_private_urls;
    }

abbrev pub post_envelope :
    Client
    → ActionSettings
    → WebhookConfig
    → Json
    → ℕ
    → Option Fields
    → Outcome DeliveryError (Unit {0})
post_envelope client settings config envelope attempt_number none =
    raised (plain_error false client.attribute_error)
post_envelope client settings config envelope attempt_number (some fields) =
    if not (truthy (get (codes "id") fields))
    then raised (plain_error true (codes "Envelope id is required for webhook delivery."))
    else webhook_result
        (client.post (webhook_request client settings config envelope fields attempt_number))

unfoldable pub deliver_webhook_action :
    Client → ActionSettings → WebhookConfig → Json → ℕ → Outcome DeliveryError (Unit {0})
deliver_webhook_action client settings config envelope attempt_number =
    if is_empty (strip config.url)
    then raised (plain_error true (codes "Webhook URL is not configured."))
    else if is_empty (strip config.secret)
    then raised (plain_error true (codes "Webhook signing secret is not configured."))
    else post_envelope client settings config envelope attempt_number (fields_of envelope)

abbrev pub attempt_meta : ℕ → Outcome DeliveryError (Unit {0}) → Bool × AttemptMeta
attempt_meta duration_ms (ok u) = (
  true,
  record {
    http_status = none;
    response_excerpt = [];
    error_message = [];
    permanent = false;
    retry_after_seconds = none;
    duration_ms = some duration_ms;
  },
)
attempt_meta duration_ms (raised e) = (
  false,
  record {
    http_status = e.http_status;
    response_excerpt = e.response_excerpt;
    error_message = e.message;
    permanent = e.permanent;
    retry_after_seconds = e.retry_after_seconds;
    duration_ms = some duration_ms;
  },
)

unfoldable pub perform_http_delivery :
    Client → ActionSettings → WebhookConfig → Json → ℕ → Bool × AttemptMeta
perform_http_delivery client settings config envelope attempt_number =
    attempt_meta client.duration_ms
      (deliver_webhook_action client settings config envelope attempt_number)
