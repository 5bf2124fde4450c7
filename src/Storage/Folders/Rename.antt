-- ===== src/Storage/Folders/Rename.antt =====
-- apps/storage/services.py: `rename_folder`, which rewrites the name of every object under a prefix.
use storage_service.Prelude.{
  ℕ, ◌+◌, Bool, false, not, ◌||◌, ◌&&◌, List, [], ◌∷◌, ◌++◌, Option, none, some, ◌==◌, leb,
  if◌then◌else◌, keep, any, drop, length,
}
use storage_service.Prelude.Outcome.{pure, gets, check, atomic, ◌>>=◌, ◌>>◌}
use storage_service.Text.{Text, codes, text_eq, is_empty, slash}
use storage_service.Text.Affix.{starts_with}
use storage_service.Text.Trim.{strip_slashes}
use storage_service.Storage.Models.{Bucket, StorageObject, Db}
use storage_service.Storage.Paths.{safe_object_path}
use storage_service.Storage.Errors.{Call, storage_error}
use storage_service.Storage.Resolve.{safe_path, object_named}
use storage_service.Storage.Objects.{}
use storage_service.Storage.Folders.{place_object, exists_named, objects_under_prefix}

pub record RenameResult : Type 0 where
  pub source : Text
  pub dest : Text
  pub moved : ℕ
  pub grants_updated : ℕ

-- `objs.sort(key=lambda o: o.name.count('/'), reverse=True)`, which keeps the order of equals.
abbrev pub depth : StorageObject → ℕ
depth obj = length (keep (λ c. c == slash) obj.name)

abbrev pub insert_by_depth : StorageObject → List StorageObject → List StorageObject
insert_by_depth obj [] = obj ∷ []
insert_by_depth obj (o ∷ rest) =
    let later = insert_by_depth obj rest in
    if leb (depth o) (depth obj) then obj ∷ o ∷ rest else o ∷ later

abbrev pub deepest_first : List StorageObject → List StorageObject
deepest_first [] = []
deepest_first (obj ∷ rest) = insert_by_depth obj (deepest_first rest)

-- `filter(bucket=bucket, name=name).exclude(pk=obj.pk).exists()`.
abbrev pub taken_by_other : Db → Bucket → Text → ℕ → Bool
taken_by_other db bucket name id =
    any (λ o. object_named bucket.id name o && not (o.id == id)) db.objects

-- The loop of `rename_folder`: the number of objects moved.
abbrev pub rename_all : Bucket → Text → Text → List StorageObject → Call ℕ
rename_all bucket src dst [] = pure 0
rename_all bucket src dst (obj ∷ rest) =
    let later = rename_all bucket src dst rest in
    let new_name = dst ++ drop (length src) obj.name in
    if not (starts_with obj.name (src ++ slash ∷ [])) then later else do
      taken ← gets (λ db. taken_by_other db bucket new_name obj.id)
      check (not taken) (storage_error 400 (codes "resource_already_exists")) tt
      placed ← place_object obj obj.bucket_id new_name
      n ← later
      pure (n + 1)

abbrev pub points_into : List StorageObject → Option ℕ → Bool
points_into objs none = false
points_into objs (some id) = any (λ o. o.id == id) objs

abbrev pub rename_prefix :
    (List StorageObject → List StorageObject) → Bucket → Text → Text → Call RenameResult
rename_prefix order_by_name bucket src dst = do
  objs ← gets (λ db. order_by_name (objects_under_prefix db bucket src))
  check (not (length objs == 0)) (storage_error 404 (codes "folder_not_found")) tt
  taken ←
      gets
        (λ db. not (length (objects_under_prefix db bucket dst) == 0) || exists_named db bucket dst)
  check (not taken) (storage_error 400 (codes "resource_already_exists")) tt
  moved ← rename_all bucket src dst (deepest_first objs)
  grants_updated ← gets (λ db. length (keep (λ g. points_into objs g.object_id) db.grants))
  pure (record { source = src; dest = dst; moved = moved; grants_updated = grants_updated })

abbrev pub rename_to :
    (List StorageObject → List StorageObject) → Bucket → Text → Text → Call RenameResult
rename_to order_by_name bucket src dst =
    if text_eq src dst
    then pure (record { source = src; dest = dst; moved = 0; grants_updated = 0 })
    else do
      check (not (starts_with dst (src ++ slash ∷ [])))
          (storage_error 400 (codes "invalid_destination")) tt
      rename_prefix order_by_name bucket src dst

-- `order_by('name')` follows the collation of the database. `safe_object_path` returns neither an
-- empty path nor one that a strip of slashes would change.
unfoldable pub rename_folder :
    (List StorageObject → List StorageObject) → Bucket → Text → Text → Call RenameResult
rename_folder order_by_name bucket source_path dest_path = atomic (do
  source ← safe_path (safe_object_path source_path)
  dest ← safe_path (safe_object_path dest_path)
  let src = strip_slashes source
  let dst = strip_slashes dest
  check (not (is_empty src || is_empty dst)) (storage_error 400 (codes "invalid_prefix")) tt
  rename_to order_by_name bucket src dst)
