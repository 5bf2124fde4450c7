-- ===== src/Actions/Email.antt =====
-- apps/actions/email_service.py: the body of an event for the email service, and the request that
-- sends it. `is_email` is the match of `_EMAIL_RE`, and `int_of` is Python's `int` of a JSON value,
-- none where it refuses.
use storage_service.Prelude.{
  ℕ, Bool, true, false, not, ◌&&◌, ◌||◌, [], ◌∷◌, ◌++◌, Option, none, some, leb, ltb, if◌then◌else◌,
  drop,
}
use storage_service.Prelude.Outcome.{Outcome, ok, raised}
use storage_service.Text.{Text, codes, is_empty}
use storage_service.Text.Trim.{strip, strip_right, is_slash}
use storage_service.Text.Affix.{starts_with}
use storage_service.Text.Decimal.{str}
use storage_service.Json.{
  Json, null, number, text, array, object, Items, nil, cons, Fields, end, field, get, put,
}
use storage_service.Actions.Models.{Status, DeliveryKind, ActionOutbox, ActionSettings}
use storage_service.Actions.Retry.{is_permanent_http_status, honors_retry_after}
use storage_service.Actions.Redaction.{redact_secrets}
use storage_service.Actions.Outbox.{
  AttemptMeta, redact_email_service_secret, email_service_configured,
}
use storage_service.Actions.Handlers.{
  Client, Request, Sent, answered, http_error, os_error, other_error, text_or_empty,
  request_id_header,
}

abbrev pub email_service_origin : ActionSettings → Text
email_service_origin settings =
    let raw = strip_right is_slash (strip settings.email_service_url) in
    if is_empty raw then codes "https://email.shellui.com" else raw

abbrev pub email_events_url : ActionSettings → Text
email_events_url settings = email_service_origin settings ++ codes "/api/v1/events"

-- What `recipient_hints` takes from Python.
pub record Recipients : Type 0 where
  pub is_email : Text → Bool
  pub int_of : Json → Option ℕ

abbrev pub is_given : Option Json → Bool
is_given none = false
is_given (some null) = false
is_given (some (text [])) = false
is_given (some value) = true

abbrev pub user_hint : Option ℕ → Fields
user_hint none = end
user_hint (some id) = field (codes "user_id") (number id) end

abbrev pub int_of_option : (Json → Option ℕ) → Option Json → Option ℕ
int_of_option int_of none = none
int_of_option int_of (some value) = if is_given (some value) then int_of value else none

unfoldable pub recipient_hints : Client → Recipients → Fields → Items
recipient_hints client python end = nil
recipient_hints client python (field key value fields) =
    let actor = field key value fields in
    let email = strip (text_or_empty client (get (codes "email") actor)) in
    if not (python.is_email email)
    then nil
    else cons
        (object (
          field (codes "email") (text email)
            (user_hint (int_of_option python.int_of (get (codes "user_id") actor)))))
        nil

abbrev pub fields_or_empty : Json → Fields
fields_or_empty (object fields) = fields
fields_or_empty _ = end

-- `email_event_payload`.
abbrev pub email_event_payload : (Text → Text) → (ℕ → ℕ) → Fields → Fields
email_event_payload lower fold payload =
    fields_or_empty (redact_secrets lower fold (object payload))

abbrev pub with_company_name : Client → Text → Fields → Fields
with_company_name client name data_fields =
    if not (is_empty name)
      && is_empty (strip (text_or_empty client (get (codes "company_name") data_fields)))
    then put (codes "company_name") (text name) data_fields
    else data_fields

unfoldable pub build_email_event_body :
    Client
    → Recipients
    → (Text → Text)
    → (ℕ → ℕ)
    → Text
    → ℕ
    → Fields
    → Text
    → Fields
    → Text
    → Fields
build_email_event_body client python lower fold event_type company_id payload idempotency_key actor
      company_name =
    field (codes "service") (text (codes "storage")) (
      field (codes "event_type") (text event_type) (
        field (codes "company_id") (number company_id) (
          field (codes "idempotency_key") (text idempotency_key) (
            field (codes "payload")
              (object (
                with_company_name client (strip company_name)
                  (email_event_payload lower fold payload)))
              (field (codes "recipients") (array (recipient_hints client python actor)) end)))))

-- The row that `enqueue_email_event` writes, if the email service is configured.
abbrev pub email_row : ℕ → ℕ → Text → ℕ → Fields → ActionOutbox
email_row id company_id event_type now body = record {
  id = id;
  company_id = company_id;
  action_rule_id = none;
  delivery_kind = DeliveryKind.email;
  event_type = event_type;
  envelope = object body;
  status = Status.pending;
  attempt_count = 0;
  next_attempt_at = none;
  locked_until = none;
  last_error = [];
  created_at = now;
  delivered_at = none;
}

abbrev pub is_success : ℕ → Bool
is_success status = leb 200 status && ltb status 300

unfoldable pub email_failure_is_permanent : Option ℕ → Bool
email_failure_is_permanent none = is_permanent_http_status none
email_failure_is_permanent (some status) =
    if is_success status then false else is_permanent_http_status (some status)

abbrev pub failure_message : Option ℕ → Text → Text → Text
failure_message none code detail =
    codes "Email event request failed"
    ++ (if is_empty detail then [] else codes " (" ++ detail ++ codes ")")
    ++ codes "."
failure_message (some status) code detail =
    if is_empty code
    then codes "Email event was not accepted (HTTP " ++ str status ++ codes ")."
    else codes "Email event was not accepted (HTTP "
      ++ str status
      ++ codes ", "
      ++ code
      ++ codes ")."

abbrev pub email_meta : Client → ActionSettings → Option ℕ → Text → Bool → Option ℕ → AttemptMeta
email_meta client settings http_status message permanent retry_after = record {
  http_status = http_status;
  response_excerpt = [];
  error_message = redact_email_service_secret settings message;
  permanent = permanent;
  retry_after_seconds = retry_after;
  duration_ms = some client.duration_ms;
}

-- `_email_service_error_message`.
abbrev pub renamed_url : Text → Text
renamed_url message =
    if starts_with message (codes "Webhook URL")
    then codes "Email service URL" ++ drop 11 message
    else message

abbrev pub honored_wait : Option ℕ → Option ℕ → Option ℕ
honored_wait status wait = if honors_retry_after status then wait else none

abbrev pub email_result : Client → ActionSettings → Sent → Outcome Text (Bool × AttemptMeta)
email_result client settings (answered status excerpt retry_after) =
    if is_success status
    then ok (true, email_meta client settings (some status) [] false none)
    else ok (
      false,
      email_meta client settings (some status)
          (failure_message (some status) (client.error_code_of excerpt) [])
          (email_failure_is_permanent (some status)) (honored_wait (some status) retry_after),
    )
email_result client settings (http_error message status excerpt permanent retry_after) = ok (
  false,
  email_meta client settings status (renamed_url (redact_email_service_secret settings message))
      (permanent || email_failure_is_permanent status) (honored_wait status retry_after),
)
email_result client settings (os_error message) = ok (
  false,
  email_meta client settings none
      (failure_message none [] (redact_email_service_secret settings message)) false none,
)
email_result client settings (other_error message) = raised message

abbrev pub email_request : Client → ActionSettings → Fields → Request
email_request client settings body = record {
  url = email_events_url settings;
  body = client.encode_body body;
  headers =
      (codes "Authorization", codes "Bearer " ++ strip settings.email_service_api_key)
      ∷ (codes "Content-Type", codes "application/json; charset=utf-8")
      ∷ (codes "Accept", codes "application/json")
      ∷ (codes "User-Agent", codes "shellui-storage-service/1.0")
      ∷ request_id_header client.request_id;
  allow_private = settings.email_service_allow_private;
}

-- An exception that is neither a WebhookHTTPError nor an OSError leaves the function.
unfoldable pub deliver_email_event :
    Client → ActionSettings → Fields → Outcome Text (Bool × AttemptMeta)
deliver_email_event client settings body =
    if not (email_service_configured settings)
    then ok (
      false,
      email_meta client settings none (codes "Email service is not configured.") true none,
    )
    else email_result client settings (client.post (email_request client settings body))
