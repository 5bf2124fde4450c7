-- ===== src/Actions/Outbox/Batch.antt =====
-- apps/actions/delivery.py, `retry_pending_webhooks` with one worker (`concurrency=1`, no pool).
-- Per turn of the loop, counted from 0, a function of the model gives what the turn reads: whether
-- the monotonic clock is before the deadline, the rows that other transactions have locked, the
-- time of the attempt, and what its request ends with.
use storage_service.Prelude.{
  ℕ, zero, suc, ◌+◌, Bool, ◌&&◌, Option, none, some, ltb, if◌then◌else◌, update_where,
}
use storage_service.Prelude.Outcome.{Outcome, ok, raised}
use storage_service.Actions.Models.{
  Status, DeliveryKind, Trigger, ActionOutbox, ActionSettings, ActionDb,
}
use storage_service.Actions.Outbox.{has_id, Job, RequestResult, DeliveryError, deliver_outbox_row}
use storage_service.Actions.Outbox.Claim.{claim_next_pending_outbox, is_retryable}

pub record Stats : Type 0 where
  pub processed : ℕ
  pub delivered : ℕ
  pub retried : ℕ
  pub dead : ℕ
  pub email_processed : ℕ
  pub email_delivered : ℕ
  pub email_retried : ℕ
  pub email_dead : ℕ

abbrev pub empty_stats : Stats
empty_stats = record {
  processed = 0;
  delivered = 0;
  retried = 0;
  dead = 0;
  email_processed = 0;
  email_delivered = 0;
  email_retried = 0;
  email_dead = 0;
}

abbrev pub merge_stats : Stats → Stats → Stats
merge_stats a b = record {
  processed = a.processed + b.processed;
  delivered = a.delivered + b.delivered;
  retried = a.retried + b.retried;
  dead = a.dead + b.dead;
  email_processed = a.email_processed + b.email_processed;
  email_delivered = a.email_delivered + b.email_delivered;
  email_retried = a.email_retried + b.email_retried;
  email_dead = a.email_dead + b.email_dead;
}

-- The counters of one row, without those of email.
abbrev pub status_stats : Status → Status → Stats
status_stats before Status.delivered = record empty_stats { processed = 1; delivered = 1 }
status_stats before Status.dead = record empty_stats { processed = 1; dead = 1 }
status_stats before Status.failed = record empty_stats { processed = 1; retried = 1 }
status_stats before Status.pending = record empty_stats {
  processed = 1;
  retried = if is_retryable before then 1 else 0;
}

abbrev pub with_email : DeliveryKind → Stats → Stats
with_email DeliveryKind.webhook stats = stats
with_email DeliveryKind.email stats = record stats {
  email_processed = stats.processed;
  email_delivered = stats.delivered;
  email_retried = stats.retried;
  email_dead = stats.dead;
}

-- `_summarize_delivery_result`.
unfoldable pub summarize_delivery_result : Status → Option ActionOutbox → Stats
summarize_delivery_result before none = empty_stats
summarize_delivery_result before (some after) =
    with_email after.delivery_kind (status_stats before after.status)

abbrev pub email_count : DeliveryKind → ℕ
email_count DeliveryKind.webhook = 0
email_count DeliveryKind.email = 1

-- What a dry run makes of a claimed row.
abbrev pub dry_stats : ActionOutbox → Stats → Stats
dry_stats row stats = record stats {
  processed = stats.processed + 1;
  email_processed = stats.email_processed + email_count row.delivery_kind;
}

abbrev pub unlocked : ActionOutbox → ActionOutbox
unlocked row = record row { locked_until = none }

abbrev pub release : ActionOutbox → ActionDb → ActionDb
release row db = record db { outbox = update_where (has_id row.id) unlocked db.outbox }

-- The arguments of a run, and what its turns read.
pub record Run : Type 0 where
  pub batch_size : ℕ
  pub dry_run : Bool
  pub now : ℕ
  pub scheduled_job_run_id : Option ℕ
  pub nulls_first : Bool
  pub in_time : ℕ → Bool
  pub skipped : ℕ → ActionOutbox → Bool
  pub clock : ℕ → ℕ
  pub send : ℕ → Job → RequestResult

-- What a run leaves: its counters, or the error that ends it, and the tables; none where the fuel
-- has run out.
abbrev pub RunResult : Type 0
RunResult = Option (Outcome DeliveryError Stats × ActionDb)

abbrev pub attempt :
    ActionSettings
    → Run
    → ℕ
    → ActionOutbox
    → ActionDb
    → Outcome DeliveryError (Option ActionOutbox) × ActionDb
attempt settings run turn row db =
    deliver_outbox_row settings (run.clock turn) (Trigger.automatic_retry, run.scheduled_job_run_id)
      (run.send turn) row.id db

-- One turn with a claimed row, and the loop after it.
abbrev pub after_attempt :
    Status
    → Stats
    → (Stats → ActionDb → RunResult)
    → Outcome DeliveryError (Option ActionOutbox) × ActionDb
    → RunResult
after_attempt before stats again (ok after, db) =
    again (merge_stats stats (summarize_delivery_result before after)) db
after_attempt before stats again (raised e, db) = some (raised e, db)

abbrev pub turn_with :
    ActionSettings
    → Run
    → ℕ
    → Stats
    → (Stats → ActionDb → RunResult)
    → Option ActionOutbox × ActionDb
    → RunResult
turn_with settings run turn stats again (none, db) = some (ok stats, db)
turn_with settings run turn stats again (some row, db) =
    if run.dry_run
    then again (dry_stats row stats) (release row db)
    else after_attempt row.status stats again (attempt settings run turn row db)

unfoldable pub retry_loop : ActionSettings → Run → ℕ → ℕ → Stats → ActionDb → RunResult
retry_loop settings run zero turn stats db = none
retry_loop settings run (suc fuel) turn stats db =
    let again = retry_loop settings run fuel (suc turn) in
    if ltb stats.processed run.batch_size && run.in_time turn
    then turn_with settings run turn stats again
        (claim_next_pending_outbox settings run.nulls_first (run.skipped turn) run.now db)
    else some (ok stats, db)

-- The fuel is one more than the batch.
unfoldable pub retry_pending_webhooks : ActionSettings → Run → ActionDb → RunResult
retry_pending_webhooks settings run db =
    retry_loop settings run (suc run.batch_size) 0 empty_stats db
