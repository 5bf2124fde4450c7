-- ===== src/Actions/Tests/Answers.antt =====
-- An attempt that the receiver answers with 410.
use storage_service.Prelude.{◌+◌, ◌≡◌, refl, [], ◌∷◌, none, some}
use storage_service.Prelude.Outcome.{ok}
use storage_service.Text.{codes}
use storage_service.Json.{text, object, Fields, end, field}
use storage_service.Actions.Models.{Trigger, ActionOutbox, ActionDb}
use storage_service.Actions.Outbox.{deliver_outbox_row}
use storage_service.Actions.Handlers.Answers.{send_webhook, status_after, webhook_answer-status}
use storage_service.Actions.Tests.{test_settings, test_db, test_rule, new_row, test_client}

abbrev test_envelope : Fields
test_envelope = field (codes "id") (text (codes "u1")) end

abbrev event_row : ActionOutbox
event_row = record new_row { envelope = object test_envelope }

abbrev event_db : ActionDb
event_db = record test_db { outbox = event_row ∷ [] }

webhook_answer-status_example :
    (after : ActionOutbox) × ((deliver_outbox_row test_settings 100
        (Trigger.dispatch, none)
        (send_webhook test_client test_settings test_rule)
        7
        event_db).0
      ≡ ok (some after))
    × (after.status ≡ status_after test_settings (0 + 1) 410)
webhook_answer-status_example =
    webhook_answer-status test_client test_settings 100 (Trigger.dispatch, none) 7 event_db
      event_row test_rule test_envelope 410 [] none refl refl refl refl refl refl refl refl refl
