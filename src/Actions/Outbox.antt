-- ===== src/Actions/Outbox.antt =====
-- apps/actions/delivery.py: one attempt to deliver one row of the outbox. The transaction before
-- the request is `begin_delivery`, the one after it `complete_delivery`; between them other workers
-- run. A row is saved by its primary key. `send` is what the network call ends with: the pair of
-- `_perform_http_delivery` or of `deliver_email_event`, or the exception that the latter lets through.
-- Logging is left out.
pub mod Claim
pub mod Rows
pub mod Interleavings
pub mod Consistency
pub mod Progress
pub mod Spacing
pub mod Batch
pub mod BatchEnds
pub mod DryRun
use storage_service.Prelude.{
  ℕ, ◌+◌, ◌*◌, Bool, true, false, not, ◌&&◌, ◌||◌, List, [], ◌∷◌, ◌++◌, Option, none, some, ◌==◌,
  leb, if◌then◌else◌, find, update_where, take,
}
use storage_service.Prelude.Outcome.{Outcome, ok, raised, Exec, pure, fail, gets, ◌>>=◌}
use storage_service.Text.{Text, codes, is_empty}
use storage_service.Text.Trim.{strip}
use storage_service.Text.Affix.{starts_with}
use storage_service.Text.Decimal.{str}
use storage_service.Text.Replace.{replace}
use storage_service.Json.{Json, Fields, object}
use storage_service.Actions.Models.{
  ActionKind, ActionRule, Status, DeliveryKind, ActionOutbox, Trigger, DeliveryAttempt,
  ActionSettings, ActionDb,
}
use storage_service.Actions.Retry.{compute_retry_delay_seconds, backoff_seconds}

abbrev pub second : ℕ
second = 1000000

-- `email_service_configured`, on the stripped key.
abbrev pub email_service_configured : ActionSettings → Bool
email_service_configured settings =
    starts_with (strip settings.email_service_api_key) (codes "esk_")

unfoldable pub redact_email_service_secret : ActionSettings → Text → Text
redact_email_service_secret settings value =
    let key = strip settings.email_service_api_key in
    if is_empty key then value else replace key (codes "[redacted]") value

-- What an attempt has ended with.
pub record AttemptMeta : Type 0 where
  pub http_status : Option ℕ
  pub response_excerpt : Text
  pub error_message : Text
  pub permanent : Bool
  pub retry_after_seconds : Option ℕ
  pub duration_ms : Option ℕ

abbrev pub http_part : Option ℕ → Text
http_part none = []
http_part (some status) = codes " | HTTP " ++ str status

abbrev pub or_failed : Text → Text
or_failed [] = codes "Delivery failed."
or_failed (c ∷ s) = c ∷ s

abbrev pub body_part : Text → Text
body_part [] = []
body_part (c ∷ s) = codes " | body: " ++ take 512 (c ∷ s)

abbrev pub format_attempt_error : AttemptMeta → Text
format_attempt_error meta =
    or_failed (strip meta.error_message)
    ++ http_part meta.http_status
    ++ body_part meta.response_excerpt

-- `email_event_body`: the stored body of an email row, if it is a dictionary.
abbrev pub fields_of : Json → Option Fields
fields_of (object fields) = some fields
fields_of _ = none

abbrev pub email_event_body : DeliveryKind → Json → Option Fields
email_event_body DeliveryKind.webhook envelope = none
email_event_body DeliveryKind.email envelope = fields_of envelope

abbrev pub is_webhook_kind : ActionKind → Bool
is_webhook_kind ActionKind.webhook = true
is_webhook_kind ActionKind.other_kind = false

-- `_load_rule_for_delivery`: the rule, and the error that ends the delivery.
abbrev pub usable_rule : Option ActionRule → Option ActionRule × Option Text
usable_rule none = (none, some (codes "Action rule deleted."))
usable_rule (some rule) =
    if not rule.enabled
    then (none, some (codes "Action rule disabled."))
    else if not (is_webhook_kind rule.action_kind)
    then (none, some (codes "Unsupported action kind (webhook only)."))
    else (some rule, none)

abbrev pub rule_of : List ActionRule → Option ℕ → Option ActionRule
rule_of rules none = none
rule_of rules (some id) = find (λ r. r.id == id) rules

abbrev pub is_final : Status → Bool
is_final Status.delivered = true
is_final Status.dead = true
is_final Status.pending = false
is_final Status.failed = false

-- What the first transaction passes on to the request and to the second transaction.
pub record Job : Type 0 where
  pub outbox_id : ℕ
  pub rule : Option ActionRule
  pub email_body : Option Fields
  pub terminal_error : Option Text
  pub envelope : Json
  pub snapshot_attempt : ℕ

pub data Begun : Type 0 where
  absent : Begun
  settled : ActionOutbox → Begun
  job : Job → Begun

abbrev pub email_job : ActionSettings → ActionOutbox → Fields → Job
email_job settings row body = record {
  outbox_id = row.id;
  rule = none;
  email_body = some body;
  terminal_error =
      if email_service_configured settings
      then none
      else some (codes "Email service is not configured.");
  envelope = row.envelope;
  snapshot_attempt = row.attempt_count;
}

abbrev pub webhook_job : ActionDb → ActionOutbox → Job
webhook_job db row =
    let loaded = usable_rule (rule_of db.rules row.action_rule_id) in
    record {
      outbox_id = row.id;
      rule = loaded.0;
      email_body = none;
      terminal_error = loaded.1;
      envelope = row.envelope;
      snapshot_attempt = row.attempt_count;
    }

abbrev pub job_of : ActionSettings → ActionDb → ActionOutbox → Option Fields → Job
job_of settings db row none = webhook_job db row
job_of settings db row (some body) = email_job settings row body

abbrev pub begun_row : ActionSettings → ActionDb → Option ActionOutbox → Begun
begun_row settings db none = absent
begun_row settings db (some row) =
    if is_final row.status
    then settled row
    else job (job_of settings db row (email_event_body row.delivery_kind row.envelope))

abbrev pub has_id : ℕ → ActionOutbox → Bool
has_id id row = row.id == id

unfoldable pub begin_delivery : ActionSettings → ℕ → ActionDb → Begun
begin_delivery settings id db = begun_row settings db (find (has_id id) db.outbox)

-- The values that `_apply_delivery_result` computes before it writes.
pub record Verdict : Type 0 where
  pub success : Bool
  pub permanent : Bool
  pub http_status : Option ℕ
  pub retry_after_seconds : Option ℕ
  pub duration_ms : Option ℕ
  pub error : Text

unfoldable pub verdict_of : ActionSettings → Option Text → Bool → AttemptMeta → Verdict
verdict_of settings (some terminal_error) success meta = record {
  success = false;
  permanent = true;
  http_status = none;
  retry_after_seconds = none;
  duration_ms = none;
  error = redact_email_service_secret settings terminal_error;
}
verdict_of settings none success meta = record {
  success = success;
  permanent = meta.permanent;
  http_status = meta.http_status;
  retry_after_seconds = meta.retry_after_seconds;
  duration_ms = meta.duration_ms;
  error = redact_email_service_secret settings (format_attempt_error meta);
}

-- What `_apply_delivery_result` makes of the row.
unfoldable pub apply_verdict : ActionSettings → ℕ → Verdict → ActionOutbox → ActionOutbox
apply_verdict settings now v row =
    let attempt_number = row.attempt_count + 1 in
    if v.success
    then record row {
      attempt_count = attempt_number;
      locked_until = none;
      status = Status.delivered;
      delivered_at = some now;
      last_error = [];
      next_attempt_at = none;
    }
    else if v.permanent || leb settings.outbox_max_attempts attempt_number
    then record row {
      attempt_count = attempt_number;
      locked_until = none;
      status = Status.dead;
      last_error = v.error;
      next_attempt_at = none;
    }
    else record row {
      attempt_count = attempt_number;
      locked_until = none;
      status = Status.failed;
      last_error = v.error;
      next_attempt_at = some (
          now
          + compute_retry_delay_seconds attempt_number v.http_status v.retry_after_seconds
              (backoff_seconds attempt_number)
            * second);
    }

abbrev pub attempt_row : Verdict → Trigger → Option ℕ → ActionOutbox → DeliveryAttempt
attempt_row v trigger run_id row = record {
  outbox_id = row.id;
  success = v.success;
  http_status = v.http_status;
  error_message = if v.success then [] else v.error;
  attempt_number = row.attempt_count + 1;
  duration_ms = v.duration_ms;
  trigger = trigger;
  scheduled_job_run_id = run_id;
}

-- Who makes an attempt: the trigger, and the scheduled run.
abbrev pub Correlation : Type 0
Correlation = Trigger × Option ℕ

unfoldable pub apply_delivery_result :
    ActionSettings → ℕ → Verdict → Correlation → ActionOutbox → ActionDb → ActionDb
apply_delivery_result settings now v by row db = record db {
  attempts = db.attempts ++ attempt_row v by.0 by.1 row ∷ [];
  outbox = update_where (has_id row.id) (apply_verdict settings now v) db.outbox;
}

-- `ActionOutbox.DoesNotExist`, or what the request has raised.
pub data DeliveryError : Type 0 where
  does_not_exist : DeliveryError
  request_raised : Text → DeliveryError

abbrev pub complete_row :
    ActionSettings
    → ℕ
    → Verdict
    → Correlation
    → ℕ
    → Option ActionOutbox
    → Exec ActionDb DeliveryError (Option ActionOutbox)
complete_row settings now v by snapshot none db = (raised does_not_exist, db)
complete_row settings now v by snapshot (some row) db =
    if not (row.attempt_count == snapshot) then (ok (some row), db) else (
      ok (some (apply_verdict settings now v row)),
      apply_delivery_result settings now v by row db,
    )

-- The second transaction: a row that another worker has attempted since is left alone.
unfoldable pub complete_delivery :
    ActionSettings
    → ℕ
    → Correlation
    → Job
    → Bool × AttemptMeta
    → Exec ActionDb DeliveryError (Option ActionOutbox)
complete_delivery settings now by j sent db =
    complete_row settings now (verdict_of settings j.terminal_error sent.0 sent.1) by
      j.snapshot_attempt (find (has_id j.outbox_id) db.outbox) db

-- What a request ends with: the pair of its result, or an exception.
abbrev pub RequestResult : Type 0
RequestResult = Outcome Text (Bool × AttemptMeta)

abbrev pub no_meta : AttemptMeta
no_meta = record {
  http_status = none;
  response_excerpt = [];
  error_message = [];
  permanent = false;
  retry_after_seconds = none;
  duration_ms = none;
}

-- A job with a terminal error makes no request.
abbrev pub unless_terminal : Option Text → RequestResult → RequestResult
unless_terminal none sent = sent
unless_terminal (some terminal_error) sent = ok (false, no_meta)

abbrev pub requested : (Job → RequestResult) → Job → RequestResult
requested send j = unless_terminal j.terminal_error (send j)

abbrev pub after_request :
    ActionSettings
    → ℕ
    → Correlation
    → Job
    → RequestResult
    → Exec ActionDb DeliveryError (Option ActionOutbox)
after_request settings now by j (ok sent) = complete_delivery settings now by j sent
after_request settings now by j (raised e) = fail (request_raised e)

abbrev pub after_begin :
    ActionSettings
    → ℕ
    → Correlation
    → (Job → RequestResult)
    → Begun
    → Exec ActionDb DeliveryError (Option ActionOutbox)
after_begin settings now by send absent = pure none
after_begin settings now by send (settled row) = pure (some row)
after_begin settings now by send (job j) = after_request settings now by j (requested send j)

-- `deliver_outbox_row`, with no other worker between its two transactions.
unfoldable pub deliver_outbox_row :
    ActionSettings
    → ℕ
    → Correlation
    → (Job → RequestResult)
    → ℕ
    → Exec ActionDb DeliveryError (Option ActionOutbox)
deliver_outbox_row settings now by send id db =
    after_begin settings now by send (begin_delivery settings id db) db
