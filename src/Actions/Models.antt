-- ===== src/Actions/Models.antt =====
-- apps/actions/models.py: the rows of the tables that the actions keep. A time is a number of
-- microseconds; `updated_at`, which nothing reads, is left out. The settings are those that the
-- modelled functions read.
use storage_service.Prelude.{ℕ, Bool, Option, List}
use storage_service.Text.{Text}
use storage_service.Json.{Json, Fields}
use storage_service.Actions.RuleConfig.{WebhookConfig}

pub data ActionKind : Type 0 where
  webhook other_kind : ActionKind

pub record ActionRule : Type 0 where
  pub id : ℕ
  pub company_id : ℕ
  pub event_type : Text
  pub enabled : Bool
  pub action_kind : ActionKind
  pub config : WebhookConfig

pub data Status : Type 0 where
  pending delivered failed dead : Status

pub data DeliveryKind : Type 0 where
  webhook email : DeliveryKind

pub record ActionOutbox : Type 0 where
  pub id : ℕ
  pub company_id : ℕ
  pub action_rule_id : Option ℕ
  pub delivery_kind : DeliveryKind
  pub event_type : Text
  pub envelope : Json
  pub status : Status
  pub attempt_count : ℕ
  pub next_attempt_at : Option ℕ
  pub locked_until : Option ℕ
  pub last_error : Text
  pub created_at : ℕ
  pub delivered_at : Option ℕ

pub data Trigger : Type 0 where
  dispatch automatic_retry : Trigger

pub record DeliveryAttempt : Type 0 where
  pub outbox_id : ℕ
  pub success : Bool
  pub http_status : Option ℕ
  pub error_message : Text
  pub attempt_number : ℕ
  pub duration_ms : Option ℕ
  pub trigger : Trigger
  pub scheduled_job_run_id : Option ℕ

pub record EventLog : Type 0 where
  pub id : ℕ
  pub company_id : Option ℕ
  pub user_id : Option ℕ
  pub event_type : Text
  pub payload : Fields
  pub created_at : ℕ

pub record ActionSettings : Type 0 where
  pub outbox_max_attempts : ℕ
  pub retry_lease_seconds : ℕ
  pub webhook_allow_private : Bool
  pub email_service_api_key : Text
  pub email_service_url : Text
  pub email_service_allow_private : Bool

-- The tables of the outbox.
pub record ActionDb : Type 0 where
  pub rules : List ActionRule
  pub outbox : List ActionOutbox
  pub attempts : List DeliveryAttempt
  pub events : List EventLog
