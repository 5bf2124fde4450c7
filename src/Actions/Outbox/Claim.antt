-- ===== src/Actions/Outbox/Claim.antt =====
-- apps/actions/delivery.py, `claim_next_pending_outbox`, and apps/actions/admin_api_views.py, the
-- view that queues a delivery again. `nulls_first` is where the database puts an empty
-- `next_attempt_at` in the order, and `skipped` are the rows that another transaction has locked.
use storage_service.Prelude.{
  ℕ, ◌+◌, ◌*◌, Bool, true, false, not, ◌&&◌, ◌||◌, List, [], ◌∷◌, Option, none, some, ◌==◌, leb,
  ltb, if◌then◌else◌, find, update_where, keep,
}
use storage_service.Actions.Models.{Status, DeliveryKind, ActionOutbox, ActionSettings, ActionDb}
use storage_service.Actions.Outbox.{second, has_id}

-- `Q(at__isnull=True) | Q(at__lte=now)`.
abbrev pub due : ℕ → Option ℕ → Bool
due now none = true
due now (some at) = leb at now

abbrev pub is_retryable : Status → Bool
is_retryable Status.pending = true
is_retryable Status.failed = true
is_retryable Status.delivered = false
is_retryable Status.dead = false

-- `_pending_outbox_filter`.
abbrev pub pending_outbox : ℕ → ActionOutbox → Bool
pending_outbox now row =
    is_retryable row.status && due now row.next_attempt_at && due now row.locked_until

abbrev pub attempt_before : Bool → Option ℕ → Option ℕ → Bool
attempt_before nulls_first none none = false
attempt_before nulls_first none (some b) = nulls_first
attempt_before nulls_first (some a) none = not nulls_first
attempt_before nulls_first (some a) (some b) = ltb a b

-- `order_by('next_attempt_at', 'created_at')`: does `a` stand before `b`.
abbrev pub stands_before : Bool → ActionOutbox → ActionOutbox → Bool
stands_before nulls_first a b =
    attempt_before nulls_first a.next_attempt_at b.next_attempt_at
    || (not (attempt_before nulls_first b.next_attempt_at a.next_attempt_at)
        && ltb a.created_at b.created_at)

abbrev pub first_of : Bool → Option ActionOutbox → ActionOutbox → Option ActionOutbox
first_of nulls_first none row = some row
first_of nulls_first (some best) row =
    if stands_before nulls_first row best then some row else some best

-- `.first()` on an ordered query.
abbrev pub first_ordered : Bool → Option ActionOutbox → List ActionOutbox → Option ActionOutbox
first_ordered nulls_first best [] = best
first_ordered nulls_first best (row ∷ rows) =
    first_ordered nulls_first (first_of nulls_first best row) rows

abbrev pub lease : ℕ → ActionOutbox → ActionOutbox
lease until row = record row { locked_until = some until }

abbrev pub claim_row : ℕ → ActionDb → Option ActionOutbox → Option ActionOutbox × ActionDb
claim_row until db none = (none, db)
claim_row until db (some row) = (
  some (lease until row),
  record db { outbox = update_where (has_id row.id) (lease until) db.outbox },
)

unfoldable pub claim_next_pending_outbox :
    ActionSettings → Bool → (ActionOutbox → Bool) → ℕ → ActionDb → Option ActionOutbox × ActionDb
claim_next_pending_outbox settings nulls_first skipped now db =
    claim_row (now + settings.retry_lease_seconds * second) db (
      first_ordered nulls_first none
        (keep (λ row. pending_outbox now row && not (skipped row)) db.outbox))

abbrev pub requeued : ActionOutbox → ActionOutbox
requeued row = record row {
  status = Status.pending;
  next_attempt_at = none;
  last_error = [];
  locked_until = none;
}

abbrev pub is_webhook_row : DeliveryKind → Bool
is_webhook_row DeliveryKind.webhook = true
is_webhook_row DeliveryKind.email = false

abbrev pub requeue_row : ActionDb → Option ActionOutbox → Option ActionOutbox × ActionDb
requeue_row db none = (none, db)
requeue_row db (some row) =
    (some (requeued row), record db { outbox = update_where (has_id row.id) requeued db.outbox })

-- `ShellUIAdminActionDeliveryRequeueView.post`, after the check of the actor; none is the answer 404.
unfoldable pub requeue_delivery : ℕ → ℕ → ActionDb → Option ActionOutbox × ActionDb
requeue_delivery company_id id db = requeue_row db (
    find
      (λ row. has_id id row && (row.company_id == company_id) && is_webhook_row row.delivery_kind)
      db.outbox)
