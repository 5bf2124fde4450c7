-- ===== src/Actions/Handlers/Answers.antt =====
-- From the answer of a webhook to the row of its delivery: `deliver_outbox_row` with the request
-- that `_perform_http_delivery` makes.
use storage_service.Prelude.{
  ℕ, ◌+◌, ◌≡◌, refl, ◌∙◌, true, false, not, ◌||◌, Option, none, some, arith, leb, if◌then◌else◌,
  find, Bool-cases, inl, inr,
}
use storage_service.Prelude.Outcome.{ok}
use storage_service.Text.{Text, codes, is_empty}
use storage_service.Text.Trim.{strip}
use storage_service.Json.{Json, Fields, get}
use storage_service.Actions.Models.{ActionRule, Status, ActionOutbox, ActionSettings, ActionDb}
use storage_service.Actions.RuleConfig.{WebhookConfig}
use storage_service.Actions.Retry.{is_permanent_http_status}
use storage_service.Actions.Outbox.{
  has_id, is_final, Job, email_event_body, usable_rule, rule_of, fields_of, Correlation,
  RequestResult, deliver_outbox_row, apply_verdict, verdict_of, Verdict,
}
use storage_service.Actions.Outbox.Progress.{deliver-open}
use storage_service.Actions.Handlers.{
  Client, answered, truthy, webhook_request, webhook_result, deliver_webhook_action,
  perform_http_delivery, attempt_meta,
}

-- The request of a delivery, for a job with a rule.
abbrev pub send_webhook : Client → ActionSettings → ActionRule → Job → RequestResult
send_webhook client settings rule j =
    ok (perform_http_delivery client settings rule.config j.envelope (j.snapshot_attempt + 1))

-- What a status makes of a delivery, at the given number of attempts.
abbrev pub status_after : ActionSettings → ℕ → ℕ → Status
status_after settings attempts status =
    if not (leb 400 status)
    then Status.delivered
    else if is_permanent_http_status (some status) || leb settings.outbox_max_attempts attempts
    then Status.dead
    else Status.failed

apply_verdict-status :
    (settings : ActionSettings) (now : ℕ) (v : Verdict) (row : ActionOutbox)
    → (apply_verdict settings now v row).status ≡ (
        if v.success
        then Status.delivered
        else if v.permanent || leb settings.outbox_max_attempts (row.attempt_count + 1)
        then Status.dead
        else Status.failed)
unfolding apply_verdict
apply_verdict-status settings now v row = ground arith

perform-answered :
    (client : Client) (settings : ActionSettings) (config : WebhookConfig) (envelope : Json)
    (fields : Fields) (attempt status : ℕ) (excerpt : Text) (wait : Option ℕ)
    → is_empty (strip config.url) ≡ false
    → is_empty (strip config.secret) ≡ false
    → fields_of envelope ≡ some fields
    → truthy (get (codes "id") fields) ≡ true
    → client.post (webhook_request client settings config envelope fields attempt)
      ≡ answered status excerpt wait
    → perform_http_delivery client settings config envelope attempt
      ≡ attempt_meta client.duration_ms (webhook_result (answered status excerpt wait))
unfolding perform_http_delivery deliver_webhook_action
perform-answered client settings config envelope fields attempt status excerpt wait url secret
      is_object has_id_field post =
    rw (url, secret, is_object, has_id_field, post) refl

-- What the second transaction computes from an answer.
answered-status :
    (settings : ActionSettings) (now : ℕ) (row : ActionOutbox) (duration status : ℕ)
    (excerpt : Text) (wait : Option ℕ)
    → let sent = attempt_meta duration (webhook_result (answered status excerpt wait)) in
      (apply_verdict settings now (verdict_of settings none sent.0 sent.1) row).status
      ≡ status_after settings (row.attempt_count + 1) status
unfolding verdict_of
answered-status settings now row duration status excerpt wait =
    apply_verdict-status settings now _ row
    ∙ elim (Bool-cases (leb 400 status)) [ inl bad ↦ rw bad refl | inr good ↦ rw good refl ]

-- An attempt on a webhook row that is not final, with a usable rule that has a URL and a secret and an
-- envelope with an id, which the receiver answers: below 400 the row is delivered; with a permanent
-- status, or where this was the last attempt, it is dead; otherwise it is failed.
pub webhook_answer-status :
    (client : Client) (settings : ActionSettings) (now : ℕ) (by : Correlation) (id : ℕ)
    (db : ActionDb) (row : ActionOutbox) (rule : ActionRule) (fields : Fields) (status : ℕ)
    (excerpt : Text) (wait : Option ℕ)
    → find (has_id id) db.outbox ≡ some row
    → is_final row.status ≡ false
    → email_event_body row.delivery_kind row.envelope ≡ none
    → usable_rule (rule_of db.rules row.action_rule_id) ≡ (some rule, none)
    → is_empty (strip rule.config.url) ≡ false
    → is_empty (strip rule.config.secret) ≡ false
    → fields_of row.envelope ≡ some fields
    → truthy (get (codes "id") fields) ≡ true
    → client.post
        (webhook_request client settings rule.config row.envelope fields (row.attempt_count + 1))
      ≡ answered status excerpt wait
    → (after : ActionOutbox) × ((deliver_outbox_row settings now by
          (send_webhook client settings rule)
          id
          db).0
        ≡ ok (some after))
      × (after.status ≡ status_after settings (row.attempt_count + 1) status)
webhook_answer-status client settings now by id db row rule fields status excerpt wait found
      open_row no_body usable url secret is_object has_id_field post =
    let sent = attempt_meta client.duration_ms (webhook_result (answered status excerpt wait)) in
    let performed =
      perform-answered client settings rule.config row.envelope fields (row.attempt_count + 1)
        status excerpt wait url secret is_object has_id_field post in
    (
      apply_verdict settings now (verdict_of settings none sent.0 sent.1) row,
      rw
          (
            deliver-open settings now by (send_webhook client settings rule) id db row sent found
                open_row (rw (no_body, usable, performed) refl),
            no_body,
            usable,
          )
          refl,
      answered-status settings now row client.duration_ms status excerpt wait,
    )
