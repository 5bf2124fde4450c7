-- ===== src/Actions/Tests/Jobs.antt =====
-- The lock of a task, the purge and the deletion of a company, at concrete values.
use storage_service.Prelude.{
  ℕ, ◌+◌, ◌≡◌, refl, Bool, true, false, [], ◌∷◌, none, some, arith, ◌==◌, All, if◌then◌else◌,
}
use storage_service.Prelude.Outcome.{ok}
use storage_service.Actions.CompanyDeletion.{
  CompanyDeletion, Tables, delete_company_rows, purge_deleted_companies,
}
use storage_service.Actions.CompanyDeletion.Purges.{
  is_flagged, purge_deleted_companies-flagged, Clears, StaysClear, delete_company_rows-Cleared,
}
use storage_service.Actions.TaskLock.{
  alive, new_entry, acquire, LockSystem, LockStep, LockSteps, rest, and_step,
}
use storage_service.Actions.TaskLock.Exclusion.{running-acquire}
use storage_service.Actions.TaskLock.Refines.{LeaseSteps, lease_of, LockSteps-lease}
use storage_service.Actions.Retention.{purge_expired_data}
use storage_service.Actions.Retention.Unfinished.{
  KeepsUnfinished, purge_expired_data-KeepsUnfinished,
}
use storage_service.Actions.Tests.{test_db}

-- A run that has outlived its time, and the next one, which holds the lock.
abbrev locked : LockSystem
locked = record {
  clock = 20;
  store = some (new_entry 20 2 10);
  running = new_entry 20 2 10 ∷ new_entry 0 1 10 ∷ [];
}

test_lock_run : LockSteps (record { clock = 0; store = none; running = [] }) locked
unfolding acquire
test_lock_run =
    and_step _
      (record { clock = 20; store = some (new_entry 0 1 10); running = new_entry 0 1 10 ∷ [] }) _
      (and_step _
        (record { clock = 0; store = some (new_entry 0 1 10); running = new_entry 0 1 10 ∷ [] }) _
        (and_step _ (record { clock = 0; store = none; running = [] }) _ (rest _)
          (LockStep.take_lock 0 1 10 none [] refl))
        (LockStep.tick 0 20 (some (new_entry 0 1 10)) (new_entry 0 1 10 ∷ []) (omega arith)))
      (LockStep.take_lock 20 2 10 (some (new_entry 0 1 10)) (new_entry 0 1 10 ∷ []) refl)

running-acquire_example :
    (alive 20 locked.store ≡ some (new_entry 20 2 10)) × ((acquire 20 3 10 locked.store).0 ≡ false)
running-acquire_example =
    running-acquire 0 none locked test_lock_run [] (new_entry 0 1 10 ∷ []) (new_entry 20 2 10) refl
      refl 3 10

LockSteps-lease_example :
    LeaseSteps (lease_of (record { clock = 0; store = none; running = [] })) (lease_of locked)
LockSteps-lease_example =
    LockSteps-lease (record { clock = 0; store = none; running = [] }) locked test_lock_run

purge_expired_data-KeepsUnfinished_example :
    KeepsUnfinished test_db.outbox
      (purge_expired_data 30 99999999999999 2 (λ target turn. true) test_db)
purge_expired_data-KeepsUnfinished_example =
    purge_expired_data-KeepsUnfinished 30 99999999999999 2 (λ target turn. true) test_db
      (omega arith)

-- Two tables, and whether each has rows of the company: those of the second protect those of the
-- first.
abbrev two_tables : Tables (Bool × Bool)
two_tables = record {
  models = 1 ∷ 2 ∷ [];
  delete = λ model company_id rows.
      if model == 2
      then some (3, (rows.0, false))
      else if rows.1
      then none
      else some (1, (false, rows.1));
  blobs = λ company_id rows. some rows;
}

abbrev Empty : ℕ → Bool × Bool → Type 0
Empty model rows = (if model == 2 then rows.1 else rows.0) ≡ false

two_tables-Clears : Clears two_tables 7 Empty
two_tables-Clears model count s after h = ground (arith, h)

two_tables-StaysClear : StaysClear two_tables 7 Empty
two_tables-StaysClear model other count s after h clear = ground (arith, h, clear)

two_passes : delete_company_rows two_tables 7 (true, true) ≡ (ok 4, (false, false))
unfolding delete_company_rows
two_passes = refl

delete_company_rows-Cleared_example : All (λ model. Empty model (false, false)) two_tables.models
delete_company_rows-Cleared_example =
    delete_company_rows-Cleared two_tables 7 Empty two_tables-Clears two_tables-StaysClear
      (true, true) (false, false) 4 two_passes

-- The purge of company 7 fails each time.
abbrev failing_tables : Tables (Bool × Bool)
failing_tables = record two_tables { blobs = λ company_id rows. none }

abbrev flag : ℕ → CompanyDeletion
flag id = record { id = id; company_id = id + 6; completed_at = none }

purge_deleted_companies-flagged_example :
    is_flagged failing_tables 1
      (purge_deleted_companies failing_tables
        (λ turn. true)
        5000
        0
        (flag 2 ∷ flag 1 ∷ [])
        (true, true)).0
    ≡ true
purge_deleted_companies-flagged_example =
    purge_deleted_companies-flagged failing_tables (λ turn. true) 5000 0 (flag 2 ∷ []) [] (flag 1)
      (true, true) tt
