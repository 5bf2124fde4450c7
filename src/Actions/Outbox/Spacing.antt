-- ===== src/Actions/Outbox/Spacing.antt =====
-- apps/actions/delivery.py: after an attempt, the times at which its row can be claimed again.
use storage_service.Prelude.{
  ℕ, ◌+◌, ◌*◌, ◌≤◌, ◌<◌, ◌≡◌, refl, subst, ◌⊎◌, inl, inr, true, false, ◌||◌, Option, some, arith,
  leb, find, Bool-cases,
}
use storage_service.Prelude.Outcome.{Outcome, raised}
use storage_service.Text.{Text}
use storage_service.Actions.Models.{Status, ActionOutbox, ActionSettings, ActionDb}
use storage_service.Actions.Outbox.{
  has_id, is_final, Job, Correlation, RequestResult, requested, apply_verdict, Verdict,
  deliver_outbox_row, DeliveryError, request_raised, second,
}
use storage_service.Actions.Retry.{compute_retry_delay_seconds, backoff_seconds, retry_delay_bounds}
use storage_service.Actions.Outbox.Claim.{is_retryable, pending_outbox}
use storage_service.Actions.Outbox.Progress.{
  job_for, verdict_for, deliver-open, deliver-raised, deliver-final, find-applied,
  RequestResult-cases, requested-raised,
}

some_unique : {A : Type 0} {o : Option A} {a b : A} → o ≡ some a → o ≡ some b → a ≡ b
some_unique h k = cc

not_due :
    (now delay claim_time : ℕ)
    → 1 ≤ delay
    → claim_time < now + second
    → leb (now + delay * second) claim_time ≡ false
not_due now delay claim_time h soon = ground arith

is_retryable-final : (status : Status) → is_final status ≡ true → is_retryable status ≡ false
is_retryable-final Status.delivered h = refl
is_retryable-final Status.dead h = refl
is_retryable-final Status.pending h = cc
is_retryable-final Status.failed h = cc

final-pending :
    (claim_time : ℕ) (row : ActionOutbox)
    → is_final row.status ≡ true
    → pending_outbox claim_time row ≡ false
final-pending claim_time row final = rw (is_retryable-final row.status final) refl

apply_verdict-pending :
    (settings : ActionSettings) (now : ℕ) (v : Verdict) (row : ActionOutbox) (claim_time : ℕ)
    → claim_time < now + second
    → pending_outbox claim_time (apply_verdict settings now v row) ≡ false
unfolding apply_verdict
apply_verdict-pending settings now v row claim_time soon =
    let delay =
      compute_retry_delay_seconds (row.attempt_count + 1) v.http_status v.retry_after_seconds
        (backoff_seconds (row.attempt_count + 1)) in
    let wait =
      not_due now delay claim_time
        (retry_delay_bounds (row.attempt_count + 1) v.http_status v.retry_after_seconds
          (backoff_seconds (row.attempt_count + 1))).0
        soon in
    elim (Bool-cases v.success) [
      | inl succeeded ↦ rw succeeded refl
      | inr failure ↦
          elim (Bool-cases
            (v.permanent || leb settings.outbox_max_attempts (row.attempt_count + 1))) [
              | inl ends ↦ rw (failure, ends) refl
              | inr retry ↦ rw (failure, retry, wait) refl
            ]
    ]

-- The attempt has raised what its request has raised, and has changed nothing.
abbrev pub Raises :
    RequestResult → Outcome DeliveryError (Option ActionOutbox) × ActionDb → ActionDb → Type 0
Raises sent result db = (e : Text) × (sent ≡ raised e) × (result ≡ (raised (request_raised e), db))

-- After an attempt at the time `now`, its row is not pending for any claim whose time is less than
-- a second later, unless the request of the attempt has raised an exception: then the attempt raises
-- it and leaves the tables as they were.
pub attempted-pending :
    (settings : ActionSettings) (now : ℕ) (by : Correlation) (send : Job → RequestResult) (id : ℕ)
    (db : ActionDb) (row after : ActionOutbox) (claim_time : ℕ)
    → find (has_id id) db.outbox ≡ some row
    → find (has_id id) (deliver_outbox_row settings now by send id db).1.outbox ≡ some after
    → claim_time < now + second
    → (pending_outbox claim_time after ≡ false)
      ⊎ Raises (send (job_for settings db row)) (deliver_outbox_row settings now by send id db) db
attempted-pending settings now by send id db row after claim_time found found_after soon =
    elim (Bool-cases (is_final row.status)) [
      | inl final ↦
          let same : row ≡ after = some_unique found (
            subst (λ r. find (has_id id) r.1.outbox ≡ some after)
              (deliver-final settings now by send id db row found final) found_after) in
          inl (
            subst (λ r. pending_outbox claim_time r ≡ false) same
              (final-pending claim_time row final))
      | inr open_row ↦ elim (RequestResult-cases (requested send (job_for settings db row))) [
        | inl (sent, returned) ↦
            let v = verdict_for settings (job_for settings db row) sent in
            let same : apply_verdict settings now v row ≡ after =
              some_unique (find-applied settings now v by id db row found) (
                subst (λ r. find (has_id id) r.1.outbox ≡ some after)
                  (deliver-open settings now by send id db row sent found open_row returned)
                  found_after) in
            inl (
              subst (λ r. pending_outbox claim_time r ≡ false) same
                (apply_verdict-pending settings now v row claim_time soon))
        | inr (e, failed) ↦ inr (
          e,
          requested-raised send (job_for settings db row) e failed,
          deliver-raised settings now by send id db row e found open_row failed,
        )
      ]
    ]
