-- ===== src/Actions/Tests/Outbox.antt =====
-- Runs of the deliveries of one row, at concrete rows.
use storage_service.Prelude.{
  ◌+◌, ◌*◌, ◌≤◌, ◌≡◌, ◌⊎◌, inl, refl, true, false, [], ◌∷◌, none, some, arith, find, map,
  range_from, min,
}
use storage_service.Prelude.Outcome.{ok, raised}
use storage_service.Text.{codes}
use storage_service.Text.Decimal.{str}
use storage_service.Actions.Models.{Status, Trigger, ActionOutbox, ActionDb}
use storage_service.Actions.Retry.{
  compute_retry_delay_seconds, backoff_seconds, requested_wait, retry_delay_bounds,
}
use storage_service.Actions.Outbox.{
  has_id, second, Job, begin_delivery, job, verdict_of, apply_verdict, apply_delivery_result,
  complete_delivery, deliver_outbox_row, redact_email_service_secret, job_of,
}
use storage_service.Actions.Outbox.Claim.{pending_outbox}
use storage_service.Actions.Outbox.Rows.{attempts_of, count_of, Recorded}
use storage_service.Actions.Outbox.Interleavings.{System, Step, Steps, here, then_step}
use storage_service.Actions.Outbox.Consistency.{attempts-Recorded, final_row_kept}
use storage_service.Actions.Outbox.Progress.{
  Try, deliver_each, Ended, enough_attempts_end, Unusable, Dies, deliver_outbox_row-Dies,
}
use storage_service.Actions.Outbox.Spacing.{Raises, attempted-pending}
use storage_service.Actions.Tests.{test_settings, new_row, test_db, test_rule, refused, accepted}

retry_delay_bounds_example :
    let delay = compute_retry_delay_seconds 3 (some 429) (some 7200) 120 in
    (1 ≤ delay)
    × (delay ≤ 3600)
    × (min 3600 120 ≤ delay)
    × (min 3600 (requested_wait (some 429) (some 7200)) ≤ delay)
retry_delay_bounds_example = retry_delay_bounds 3 (some 429) (some 7200) 120

test_db-Recorded : Recorded test_db
test_db-Recorded id = ground arith

abbrev test_job : Job
test_job = job_of test_settings test_db new_row none

-- Two workers begin, one ends with success.
abbrev begun_once : System
begun_once = record { db = test_db; in_flight = test_job ∷ [] }

abbrev begun_twice : System
begun_twice = record { db = test_db; in_flight = test_job ∷ test_job ∷ [] }

abbrev delivered_system : System
delivered_system = record {
  db =
      (complete_delivery test_settings 100 (Trigger.dispatch, none) test_job (true, accepted)
        test_db).1;
  in_flight = test_job ∷ [];
}

test_begin : begin_delivery test_settings 7 test_db ≡ job test_job
unfolding begin_delivery
test_begin = refl

test_run : Steps test_settings (record { db = test_db; in_flight = [] }) delivered_system
test_run =
    then_step _ begun_twice _
      (then_step _ begun_once _
        (then_step _ (record { db = test_db; in_flight = [] }) _ (here _)
          (Step.begin test_db [] 7 test_job test_begin))
        (Step.begin test_db (test_job ∷ []) 7 test_job test_begin))
      (Step.complete test_db [] (test_job ∷ []) test_job 100 (Trigger.dispatch, none)
        (true, accepted))

attempts-Recorded_example :
    map (λ a. a.attempt_number) (attempts_of 7 delivered_system.db.attempts)
    ≡ range_from 1 (count_of (find (has_id 7) delivered_system.db.outbox))
attempts-Recorded_example =
    attempts-Recorded test_settings test_db delivered_system test_db-Recorded test_run 7

abbrev delivered_row : ActionOutbox
delivered_row = record new_row {
  attempt_count = 1;
  status = Status.delivered;
  delivered_at = some 100;
}

test_delivered : find (has_id 7) delivered_system.db.outbox ≡ some delivered_row
unfolding complete_delivery apply_delivery_result apply_verdict verdict_of
test_delivered = refl

final_row_kept_example :
    complete_delivery test_settings 200
      (Trigger.dispatch, none)
      test_job
      (false, refused)
      delivered_system.db
    ≡ (ok (some delivered_row), delivered_system.db)
final_row_kept_example =
    final_row_kept test_settings test_db delivered_system test_db-Recorded test_run [] [] test_job
      refl delivered_row test_delivered refl 200 (Trigger.dispatch, none) (false, refused)

abbrev failing : Try
failing = record { now = 100; by = (Trigger.dispatch, none); sent = ok (false, refused) }

-- A request that raises an exception does not count.
abbrev crashing : Try
crashing = record { now = 100; by = (Trigger.dispatch, none); sent = raised (codes "ValueError") }

enough_attempts_end_example :
    Ended 7 (deliver_each test_settings 7 (failing ∷ crashing ∷ failing ∷ []) test_db)
enough_attempts_end_example =
    enough_attempts_end test_settings 7 (failing ∷ crashing ∷ failing ∷ []) test_db new_row refl
      refl (omega arith) (omega arith)

abbrev disabled_db : ActionDb
disabled_db = record test_db { rules = record test_rule { enabled = false } ∷ [] }

disabled_rule : Unusable disabled_db.rules new_row.action_rule_id
disabled_rule rule found = inl (ground (arith, found))

deliver_outbox_row-Dies_example :
    Dies new_row
      (deliver_outbox_row test_settings 100
        (Trigger.dispatch, none)
        (λ _. ok (true, accepted))
        7
        disabled_db).0
deliver_outbox_row-Dies_example =
    deliver_outbox_row-Dies test_settings 100 (Trigger.dispatch, none) (λ _. ok (true, accepted)) 7
      disabled_db new_row refl refl refl disabled_rule

abbrev failed_row : ActionOutbox
failed_row = record new_row {
  attempt_count = 1;
  status = Status.failed;
  last_error = codes "down | HTTP 500";
  next_attempt_at = some (100 + 30 * second);
}

test_failed :
    find
      (has_id 7)
      (deliver_outbox_row test_settings 100
        (Trigger.dispatch, none)
        (λ _. ok (false, refused))
        7
        test_db).1.outbox
    ≡ some failed_row
unfolding deliver_outbox_row begin_delivery complete_delivery apply_delivery_result apply_verdict
    verdict_of redact_email_service_secret compute_retry_delay_seconds backoff_seconds str
test_failed = refl

attempted-pending_example :
    (pending_outbox 500 failed_row ≡ false)
    ⊎ Raises
        (ok (false, refused))
        (deliver_outbox_row test_settings 100
          (Trigger.dispatch, none)
          (λ _. ok (false, refused))
          7
          test_db)
        test_db
attempted-pending_example =
    attempted-pending test_settings 100 (Trigger.dispatch, none) (λ _. ok (false, refused)) 7
      test_db new_row failed_row 500 refl test_failed (omega arith)
