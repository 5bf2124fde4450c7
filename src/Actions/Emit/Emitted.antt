-- ===== src/Actions/Emit/Emitted.antt =====
-- apps/actions/emit.py: which rows an event leads to, and that they carry no secret.
use storage_service.Prelude.{
  ℕ, suc, ◌≡◌, refl, sym, ◌∙◌, ◌↔◌, ◌⊎◌, true, false, not, ◌&&◌, ◌||◌, ◌++◌, arith, ==_iff, ◌==◌,
  List, [], ◌∷◌, some, keep, All, Bool-cases, inl, inr,
}
use storage_service.Text.{Text, codes, text_eq, text_eq_iff}
use storage_service.Json.{Json, null, bool, number, text, array, object, Fields, get}
use storage_service.Actions.Models.{
  ActionKind, ActionRule, DeliveryKind, Status, ActionOutbox, ActionSettings, ActionDb,
}
use storage_service.Actions.Outbox.{is_webhook_kind}
use storage_service.Actions.Redaction.{redact_secrets}
use storage_service.Actions.Redaction.Clean.{Clean, redact_secrets-Clean}
use storage_service.Actions.Email.{fields_or_empty}
use storage_service.Actions.Emit.{
  EventType, Event, Python, redacted, build_envelope, asks_for, webhook_row, webhook_rows,
  email_rows, emit_event,
}

-- The rules of a company that ask for an event: the enabled webhook rules for its type.
abbrev pub Subscribed : Event → ActionRule → Type 0
Subscribed event rule =
    (rule.company_id ≡ event.company_id)
    × (rule.event_type ≡ event.event_type)
    × (rule.enabled ≡ true)
    × (rule.action_kind ≡ ActionKind.webhook)

-- A new row for a rule.
abbrev pub IsFor : Event → ActionRule → ActionOutbox → Type 0
IsFor event rule row =
    (row.action_rule_id ≡ some rule.id)
    × (row.company_id ≡ event.company_id)
    × (row.event_type ≡ event.event_type)
    × (row.delivery_kind ≡ DeliveryKind.webhook)
    × (row.status ≡ Status.pending)
    × (row.attempt_count ≡ 0)

-- One row for each rule that asks for the event, in the order of the rules, and no other row.
pub data RowsFor (event : Event) : List ActionRule → List ActionOutbox → Type 0 where
  no_rules : RowsFor event [] []
  asks :
      (rule : ActionRule) (rules : List ActionRule) (row : ActionOutbox) (rows : List ActionOutbox)
      → Subscribed event rule
      → IsFor event rule row
      → RowsFor event rules rows
      → RowsFor event (rule ∷ rules) (row ∷ rows)
  does_not_ask :
      (rule : ActionRule) (rules : List ActionRule) (rows : List ActionOutbox)
      → ¬ Subscribed event rule
      → RowsFor event rules rows
      → RowsFor event (rule ∷ rules) rows

is_webhook_kind_iff : (k : ActionKind) → (is_webhook_kind k ≡ true) ↔ (k ≡ ActionKind.webhook)
is_webhook_kind_iff ActionKind.webhook = (λ h. refl, λ h. refl)
is_webhook_kind_iff ActionKind.other_kind = (λ h. cc, λ h. cc)

asks_for_iff :
    (event : Event) (rule : ActionRule) → (asks_for event rule ≡ true) ↔ Subscribed event rule
asks_for_iff event rule = (
  λ h.
      let company : (rule.company_id == event.company_id) ≡ true = ground (arith, h) in
      let type : text_eq rule.event_type event.event_type ≡ true = ground (arith, h) in
      let enabled : rule.enabled ≡ true = ground (arith, h) in
      let kind : is_webhook_kind rule.action_kind ≡ true = ground (arith, h) in
      (
        (==_iff rule.company_id event.company_id).0 company,
        (text_eq_iff rule.event_type event.event_type).0 type,
        enabled,
        (is_webhook_kind_iff rule.action_kind).0 kind,
      ),
  λ (company, type, enabled, kind).
      rw
        (
          (==_iff rule.company_id event.company_id).1 company,
          (text_eq_iff rule.event_type event.event_type).1 type,
          enabled,
          kind,
        )
        refl,
)

webhook_rows-RowsFor :
    (python : Python) (event : Event) (next : ℕ) (rules : List ActionRule)
    → RowsFor event rules (webhook_rows python event next (keep (asks_for event) rules))
webhook_rows-RowsFor python event next [] = RowsFor.no_rules
webhook_rows-RowsFor python event next (rule ∷ rules) = elim (Bool-cases (asks_for event rule)) [
  | inl this ↦ rw this (
      RowsFor.asks rule rules (webhook_row python event (python.fresh next) rule)
        (webhook_rows python event (suc next) (keep (asks_for event) rules))
        ((asks_for_iff event rule).0 this) (refl, refl, refl, refl, refl, refl)
        (webhook_rows-RowsFor python event (suc next) rules))
  | inr other ↦ rw other (
      RowsFor.does_not_ask rule rules (webhook_rows python event next (keep (asks_for event) rules))
        (λ h. let both : true ≡ false = sym ((asks_for_iff event rule).1 h) ∙ other in cc)
        (webhook_rows-RowsFor python event next rules))
]

-- What an event leads to, where it is emitted by default or forced, and where it is neither.
abbrev pub LeadsTo : EventType → Event → ActionDb → List ActionOutbox × ActionDb → Type 0
LeadsTo kind event db result =
    ((kind.emit_by_default || event.force) ≡ true)
      × RowsFor event db.rules result.0
      × ((emails : List ActionOutbox) × (result.1.outbox ≡ db.outbox ++ result.0 ++ emails))
    ⊎ ((kind.emit_by_default ≡ false) × (event.force ≡ false) × (result ≡ ([], db)))

-- An event that is emitted by default or forced leads to one new pending webhook row for each enabled
-- webhook rule of its company and type, in the order of the rules; no other row is returned, and the
-- rows are added to the outbox. An event that is neither leads to no row and changes nothing.
pub emit_event-rules :
    (settings : ActionSettings) (python : Python) (kind : EventType) (event : Event) (db : ActionDb)
    → LeadsTo kind event db (emit_event settings python kind event db)
unfolding emit_event
emit_event-rules settings python kind event db =
    elim (Bool-cases (not kind.emit_by_default && not event.force)) [
      | inl silent ↦ rw silent (inr (ground (arith, silent), ground (arith, silent), refl))
      | inr loud ↦ rw loud (
          inl (
            ground (arith, loud),
            webhook_rows-RowsFor python event 2 db.rules,
            (email_rows settings python kind event, refl),
          ))
    ]

fields_or_empty-Clean :
    (lower : Text → Text) (fold : ℕ → ℕ) (value : Json)
    → Clean lower fold value
    → Clean lower fold (object (fields_or_empty value))
unfolding Clean
fields_or_empty-Clean lower fold (object fields) h = h
fields_or_empty-Clean lower fold null h = tt
fields_or_empty-Clean lower fold (bool b) h = tt
fields_or_empty-Clean lower fold (number n) h = tt
fields_or_empty-Clean lower fold (text s) h = tt
fields_or_empty-Clean lower fold (array items) h = tt

-- The envelope of a row, and the `data` in it, without secrets at any depth.
abbrev pub CarriesClean : Python → ActionOutbox → Type 0
CarriesClean python row =
    (envelope : Fields) × (payload : Fields) × (row.envelope ≡ object envelope)
    × (get (codes "data") envelope ≡ some (object payload))
    × Clean python.lower python.fold (object payload)

webhook_rows-Clean :
    (python : Python) (event : Event) (next : ℕ) (rules : List ActionRule)
    → All (CarriesClean python) (webhook_rows python event next rules)
unfolding build_envelope
webhook_rows-Clean python event next [] = tt
webhook_rows-Clean python event next (rule ∷ rules) = (
  (
    build_envelope python event,
    redacted python event.payload,
    refl,
    refl,
    fields_or_empty-Clean python.lower python.fold
        (redact_secrets python.lower python.fold (object event.payload))
        (redact_secrets-Clean python.lower python.fold (object event.payload)),
  ),
  webhook_rows-Clean python event (suc next) rules,
)

-- The data in the envelope of every webhook row that an event leads to has no sensitive key and no
-- sensitive text, at any depth, whatever the payload of the event is.
pub emit_event-CarriesClean :
    (settings : ActionSettings) (python : Python) (kind : EventType) (event : Event) (db : ActionDb)
    → All (CarriesClean python) (emit_event settings python kind event db).0
unfolding emit_event
emit_event-CarriesClean settings python kind event db =
    elim (Bool-cases (not kind.emit_by_default && not event.force)) [
      | inl silent ↦ rw silent tt
      | inr loud ↦ rw loud (webhook_rows-Clean python event 2 (keep (asks_for event) db.rules))
    ]
