-- ===== src/Actions/Tests.antt =====
-- Concrete rows of the outbox, and the theorems about its deliveries applied to them.
mod Outbox
mod Batch
mod Rules
mod Jobs
mod Answers
use storage_service.Prelude.{ℕ, Bool, true, false, List, [], ◌∷◌, Option, none, some}
use storage_service.Text.{codes}
use storage_service.Json.{Json, null}
use storage_service.Actions.Models.{
  ActionKind, ActionRule, Status, DeliveryKind, ActionOutbox, ActionSettings, ActionDb,
}
use storage_service.Actions.Outbox.{AttemptMeta}
use storage_service.Actions.Handlers.{Client, Sent, answered}

abbrev pub test_settings : ActionSettings
test_settings = record {
  outbox_max_attempts = 2;
  retry_lease_seconds = 120;
  webhook_allow_private = false;
  email_service_api_key = codes "esk_1";
  email_service_url = [];
  email_service_allow_private = false;
}

abbrev pub test_rule : ActionRule
test_rule = record {
  id = 5;
  company_id = 1;
  event_type = codes "object.created";
  enabled = true;
  action_kind = ActionKind.webhook;
  config = record {
    url = codes "https://example.com/hook";
    secret = codes "s";
    authorization_header = [];
    allow_private_urls = false;
  };
}

abbrev pub new_row : ActionOutbox
new_row = record {
  id = 7;
  company_id = 1;
  action_rule_id = some 5;
  delivery_kind = DeliveryKind.webhook;
  event_type = codes "object.created";
  envelope = null;
  status = Status.pending;
  attempt_count = 0;
  next_attempt_at = none;
  locked_until = none;
  last_error = [];
  created_at = 10;
  delivered_at = none;
}

abbrev pub test_db : ActionDb
test_db = record { rules = test_rule ∷ []; outbox = new_row ∷ []; attempts = []; events = [] }

abbrev pub refused : AttemptMeta
refused = record {
  http_status = some 500;
  response_excerpt = [];
  error_message = codes "down";
  permanent = false;
  retry_after_seconds = none;
  duration_ms = some 3;
}

abbrev pub accepted : AttemptMeta
accepted = record {
  http_status = none;
  response_excerpt = [];
  error_message = [];
  permanent = false;
  retry_after_seconds = none;
  duration_ms = some 3;
}

-- A receiver that answers 410.
abbrev pub test_client : Client
test_client = record {
  post = λ request. answered 410 [] none;
  encode = λ envelope. [];
  encode_body = λ body. [];
  sign = λ secret body id. [];
  text_of = λ value. codes "x";
  attribute_error = codes "no get";
  request_id = none;
  error_code_of = λ excerpt. [];
  duration_ms = 3;
}
