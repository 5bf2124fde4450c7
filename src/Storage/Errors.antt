-- ===== src/Storage/Errors.antt =====
-- The exceptions of apps/storage/services.py and apps/storage/mime.py that reach the views:
-- `StorageError` with its HTTP status and code, the `ValueError` of `safe_object_path`, and the
-- `TypeError` of `int(None)`.
use storage_service.Prelude.{ℕ}
use storage_service.Prelude.Outcome.{Exec}
use storage_service.Text.{Text}
use storage_service.Storage.Models.{Db}
use storage_service.Storage.Paths.{PathError}

pub data Failure : Type 0 where
  storage_error : ℕ → Text → Failure
  value_error : PathError → Failure
  type_error : Failure

-- A call that reads and writes the database and may raise.
abbrev pub Call : Type 0 → Type 0
Call A = Exec Db Failure A
