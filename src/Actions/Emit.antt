-- ===== src/Actions/Emit.antt =====
-- apps/actions/emit.py, apps/actions/envelope.py and apps/actions/event_log.py: an event is written
-- to the log, and one row of the outbox for each rule that asks for it. The rules of the table are
-- in the order of their keys. `fresh 0` is the identifier of the event in the log, `fresh 1` that of
-- the email row, and `fresh 2`, `fresh 3`, ... those of the webhook rows; `uuid` and `time` are texts
-- that Python makes. The catalog of events is `EventType`. The delivery after the commit is left out.
pub mod Emitted
use storage_service.Prelude.{
  ℕ, zero, suc, ◌+◌, Bool, true, false, not, ◌&&◌, ◌||◌, List, [], ◌∷◌, ◌++◌, Option, none, some,
  ◌==◌, if◌then◌else◌, keep, any,
}
use storage_service.Text.{Text, codes, text_eq}
use storage_service.Json.{
  Json, null, bool, number, text, array, object, Items, nil, cons, Fields, end, field, get, put,
}
use storage_service.Actions.Models.{
  ActionKind, ActionRule, Status, DeliveryKind, ActionOutbox, EventLog, ActionSettings, ActionDb,
}
use storage_service.Actions.Redaction.{redact_secrets}
use storage_service.Actions.Outbox.{is_webhook_kind, email_service_configured}
use storage_service.Actions.Handlers.{Client, truthy}
use storage_service.Actions.Email.{Recipients, fields_or_empty, build_email_event_body, email_row}

pub record EventType : Type 0 where
  pub emit_by_default : Bool
  pub staff_only : Bool

pub record CompanyContext : Type 0 where
  pub id : ℕ
  pub slug : Text
  pub name : Text

-- The arguments of `emit_event`; an actor that is None is empty.
pub record Event : Type 0 where
  pub event_type : Text
  pub company_id : ℕ
  pub payload : Fields
  pub company : CompanyContext
  pub actor : Fields
  pub force : Bool

-- What comes from Python: the two functions on letters, and what emails and requests need.
pub record Python : Type 0 where
  pub lower : Text → Text
  pub fold : ℕ → ℕ
  pub client : Client
  pub recipients : Recipients
  pub uuid : Text
  pub email_uuid : Text
  pub time : Text
  pub now : ℕ
  pub fresh : ℕ → ℕ

abbrev pub skipped_key : Text → Bool
skipped_key key = text_eq key (codes "company_id") || text_eq key (codes "user_id")

-- `v in _EMPTY or v is False`.
abbrev pub is_omitted : Json → Bool
is_omitted null = true
is_omitted (bool b) = not b
is_omitted (number n) = false
is_omitted (text []) = true
is_omitted (text (c ∷ s)) = false
is_omitted (array nil) = true
is_omitted (array (cons item items)) = false
is_omitted (object end) = true
is_omitted (object (field key value fields)) = false

abbrev pub without_blanks : Fields → Fields
without_blanks end = end
without_blanks (field key value rest) =
    let later = without_blanks rest in
    if skipped_key key || is_omitted value then later else field key value later

abbrev pub with_actor_email : Option Json → Fields → Fields
with_actor_email none fields = fields
with_actor_email (some email) fields =
    if truthy (some email) then put (codes "actor_email") email fields else fields

unfoldable pub compact_event_data : Python → Fields → Fields → Fields
compact_event_data python payload actor =
    with_actor_email (get (codes "email") actor)
      (fields_or_empty (redact_secrets python.lower python.fold (object (without_blanks payload))))

abbrev pub positive_id : Option Json → Option ℕ
positive_id (some (number n)) = if n == 0 then none else some n
positive_id _ = none

abbrev pub record_event : Python → Event → ActionDb → ActionDb
record_event python event db = record db {
  events =
      db.events
      ++ record {
        id = python.fresh 0;
        company_id = some event.company_id;
        user_id = positive_id (get (codes "user_id") event.actor);
        event_type = event.event_type;
        payload = compact_event_data python event.payload event.actor;
        created_at = python.now;
      }
        ∷ [];
}

abbrev pub company_fields : CompanyContext → Fields
company_fields company =
    field (codes "id") (number company.id)
      (field (codes "slug") (text company.slug) (field (codes "name") (text company.name) end))

abbrev pub actor_field : Fields → Fields
actor_field end = end
actor_field (field key value rest) = field (codes "actor") (object (field key value rest)) end

abbrev pub redacted : Python → Fields → Fields
redacted python fields = fields_or_empty (redact_secrets python.lower python.fold (object fields))

unfoldable pub build_envelope : Python → Event → Fields
build_envelope python event = field (codes "id") (text python.uuid) (
    field (codes "type") (text event.event_type) (
      field (codes "time") (text python.time) (
        field (codes "company") (object (company_fields event.company)) (
          field (codes "data") (object (redacted python event.payload))
            (actor_field (redacted python event.actor))))))

-- The rules that ask for the event.
abbrev pub asks_for : Event → ActionRule → Bool
asks_for event rule =
    (rule.company_id == event.company_id)
    && text_eq rule.event_type event.event_type
    && rule.enabled
    && is_webhook_kind rule.action_kind

abbrev pub webhook_row : Python → Event → ℕ → ActionRule → ActionOutbox
webhook_row python event id rule = record {
  id = id;
  company_id = event.company_id;
  action_rule_id = some rule.id;
  delivery_kind = DeliveryKind.webhook;
  event_type = event.event_type;
  envelope = object (build_envelope python event);
  status = Status.pending;
  attempt_count = 0;
  next_attempt_at = none;
  locked_until = none;
  last_error = [];
  created_at = python.now;
  delivered_at = none;
}

abbrev pub webhook_rows : Python → Event → ℕ → List ActionRule → List ActionOutbox
webhook_rows python event next [] = []
webhook_rows python event next (rule ∷ rules) =
    webhook_row python event (python.fresh next) rule ∷ webhook_rows python event (suc next) rules

-- `enqueue_email_event`, where the event is not for the staff alone.
abbrev pub email_rows : ActionSettings → Python → EventType → Event → List ActionOutbox
email_rows settings python kind event =
    if kind.staff_only || not (email_service_configured settings)
    then []
    else email_row (python.fresh 1) event.company_id event.event_type python.now (
        build_email_event_body python.client python.recipients python.lower python.fold
          event.event_type event.company_id event.payload python.email_uuid event.actor
          event.company.name)
      ∷ []

unfoldable pub emit_event :
    ActionSettings → Python → EventType → Event → ActionDb → List ActionOutbox × ActionDb
emit_event settings python kind event db =
    let rows = webhook_rows python event 2 (keep (asks_for event) db.rules) in
    let logged = record_event python event db in
    if not kind.emit_by_default && not event.force then ([], db) else (
      rows,
      record logged { outbox = logged.outbox ++ rows ++ email_rows settings python kind event },
    )
