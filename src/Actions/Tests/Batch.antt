-- ===== src/Actions/Tests/Batch.antt =====
-- Runs of the retry job, at concrete rows.
use storage_service.Prelude.{refl, true, false, some}
use storage_service.Prelude.Outcome.{ok}
use storage_service.Actions.Outbox.Batch.{Run, retry_pending_webhooks}
use storage_service.Actions.Outbox.BatchEnds.{EndsWithin, retry_ends}
use storage_service.Actions.Outbox.DryRun.{FillsBatch, dry_run-FillsBatch}
use storage_service.Actions.Tests.{test_settings, test_db, refused}

abbrev test_retry : Run
test_retry = record {
  batch_size = 3;
  dry_run = false;
  now = 50;
  scheduled_job_run_id = some 2;
  nulls_first = false;
  in_time = λ turn. true;
  skipped = λ turn row. false;
  clock = λ turn. 100;
  send = λ turn j. ok (false, refused);
}

retry_ends_example : EndsWithin test_retry (retry_pending_webhooks test_settings test_retry test_db)
retry_ends_example = retry_ends test_settings test_retry test_db

dry_run-FillsBatch_example :
    FillsBatch 3
      (retry_pending_webhooks test_settings (record test_retry { dry_run = true }) test_db)
dry_run-FillsBatch_example =
    dry_run-FillsBatch test_settings (record test_retry { dry_run = true }) refl (λ turn. refl)
      (λ turn row. refl) test_db refl
