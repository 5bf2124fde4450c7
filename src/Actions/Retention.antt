-- ===== src/Actions/Retention.antt =====
-- apps/actions/retention.py. A query of at most `batch_size` rows takes the first ones of the
-- table, and deleting by primary key deletes just these. `in_time` says for each turn of the loops
-- of a target whether the deadline is not over; without a deadline it always holds. The rows that
-- are deleted with an outbox row are its attempts. The last target, `purge_old_runs`, is left out.
pub mod Purged
pub mod Unfinished
use storage_service.Prelude.{
  ℕ, zero, suc, ◌+◌, ◌-◌, ◌*◌, Bool, true, false, not, ◌&&◌, List, [], ◌∷◌, Option, none, some, ltb,
  ◌==◌, if◌then◌else◌, max, min, length, keep, any,
}
use storage_service.Actions.Models.{
  Status, DeliveryKind, ActionOutbox, DeliveryAttempt, EventLog, ActionDb,
}
use storage_service.Actions.Outbox.{second, is_final, has_id}
use storage_service.Actions.Outbox.Claim.{is_webhook_row}

abbrev pub retention_days : ℕ → ℕ
retention_days event_log_retention_days = max 1 event_log_retention_days

-- The rows without the first `n` that the query finds.
abbrev pub drop_first {ℓ} : {A : Type ℓ} → (A → Bool) → ℕ → List A → List A
drop_first p n [] = []
drop_first p zero (x ∷ xs) = x ∷ xs
drop_first p (suc n) (x ∷ xs) =
    let without = drop_first p n xs in
    let later = drop_first p (suc n) xs in if p x then without else x ∷ later

-- What a loop leaves: the number of deleted rows, whether it has finished, and the table; none
-- where the fuel has run out.
abbrev pub Deleted {ℓ} : Type ℓ → Type ℓ
Deleted A = Option (ℕ × Bool × List A)

-- `_delete_in_batches`.
unfoldable pub delete_in_batches {ℓ} :
    {A : Type ℓ} → (A → Bool) → ℕ → (ℕ → Bool) → ℕ → ℕ → ℕ → List A → Deleted A
delete_in_batches p batch_size in_time zero turn deleted rows = none
delete_in_batches p batch_size in_time (suc fuel) turn deleted rows =
    let found = min batch_size (length (keep p rows)) in
    let again =
      delete_in_batches p batch_size in_time fuel (suc turn) (deleted + found)
        (drop_first p batch_size rows) in
    if not (in_time turn)
    then some (deleted, false, rows)
    else if found == 0
    then some (deleted, true, rows)
    else again

abbrev pub day : ℕ
day = 86400

-- `now - timedelta(days=retention_days())`; before the first instant there is no row.
abbrev pub cutoff : ℕ → ℕ → ℕ
cutoff event_log_retention_days now = now - retention_days event_log_retention_days * day * second

abbrev pub expired_event : ℕ → EventLog → Bool
expired_event before event = ltb event.created_at before

-- `_FINISHED_DELIVERY`, of one kind, and old.
abbrev pub expired_delivery : ℕ → Bool → ActionOutbox → Bool
expired_delivery before webhooks row =
    is_final row.status
    && (if webhooks
        then is_webhook_row row.delivery_kind
        else not (is_webhook_row row.delivery_kind))
    && ltb row.created_at before

abbrev pub without_attempts : List ActionOutbox → List DeliveryAttempt → List DeliveryAttempt
without_attempts rows attempts = keep (λ a. any (has_id a.outbox_id) rows) attempts

abbrev pub with_outbox : ActionDb → List ActionOutbox → ActionDb
with_outbox db rows = record db { outbox = rows; attempts = without_attempts rows db.attempts }

pub record PurgeStats : Type 0 where
  pub events : ℕ
  pub webhook_deliveries : ℕ
  pub email_events : ℕ
  pub complete : Bool

abbrev pub no_stats : PurgeStats
no_stats = record { events = 0; webhook_deliveries = 0; email_events = 0; complete = true }

abbrev pub Purge : Type 0
Purge = Option (PurgeStats × ActionDb)

abbrev pub after_emails : PurgeStats → ActionDb → Deleted ActionOutbox → Purge
after_emails stats db none = none
after_emails stats db (some (deleted, finished, rows)) =
    some (record stats { email_events = deleted; complete = finished }, with_outbox db rows)

abbrev pub purge_emails : ℕ → ℕ → (ℕ → Bool) → PurgeStats → ActionDb → Purge
purge_emails before batch_size in_time stats db = after_emails stats db (
    delete_in_batches (expired_delivery before false) batch_size in_time (suc (length db.outbox)) 0
      0 db.outbox)

abbrev pub after_webhooks :
    PurgeStats → ActionDb → (PurgeStats → ActionDb → Purge) → Deleted ActionOutbox → Purge
after_webhooks stats db rest none = none
after_webhooks stats db rest (some (deleted, finished, rows)) =
    let stats' = record stats { webhook_deliveries = deleted; complete = finished } in
    if finished then rest stats' (with_outbox db rows) else some (stats', with_outbox db rows)

abbrev pub purge_webhooks :
    ℕ → ℕ → (ℕ → Bool) → (PurgeStats → ActionDb → Purge) → PurgeStats → ActionDb → Purge
purge_webhooks before batch_size in_time rest stats db = after_webhooks stats db rest (
    delete_in_batches (expired_delivery before true) batch_size in_time (suc (length db.outbox)) 0 0
      db.outbox)

abbrev pub after_events :
    PurgeStats → ActionDb → (PurgeStats → ActionDb → Purge) → Deleted EventLog → Purge
after_events stats db rest none = none
after_events stats db rest (some (deleted, finished, rows)) =
    let stats' = record stats { events = deleted; complete = finished } in
    let db' = record db { events = rows } in
    if finished then rest stats' db' else some (stats', db')

-- `purge_expired_data` without `dry_run`; the fuel of a loop is one more than its table has rows.
unfoldable pub purge_expired_data : ℕ → ℕ → ℕ → (ℕ → ℕ → Bool) → ActionDb → Purge
purge_expired_data event_log_retention_days now batch_size in_time db =
    let before = cutoff event_log_retention_days now in
    after_events no_stats db
      (purge_webhooks before batch_size (in_time 1) (purge_emails before batch_size (in_time 2)))
      (delete_in_batches (expired_event before) batch_size (in_time 0) (suc (length db.events)) 0 0
        db.events)
