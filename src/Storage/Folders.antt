-- ===== src/Storage/Folders.antt =====
-- apps/storage/services.py: requests on several objects, and on two places. A folder is a prefix
-- of names. The dictionaries that some of the functions return are records here.
pub mod Keeps
pub mod Moves
pub mod Rename
pub mod Copies
use storage_service.Prelude.{
  ℕ, ◌+◌, ◌-◌, Bool, true, false, not, ◌||◌, ◌&&◌, List, [], ◌∷◌, ◌++◌, map, Option, none, some,
  ◌==◌, leb, if◌then◌else◌, find, keep, any, update_where, drop, length, is_some,
}
use storage_service.Prelude.Outcome.{
  Outcome, ok, raised, pure, fail, gets, check, atomic, ◌>>=◌, ◌>>◌,
}
use storage_service.Text.{Text, codes, text_eq, is_empty, slash}
use storage_service.Text.Affix.{starts_with, ends_with}
use storage_service.Text.Trim.{strip_slashes}
use storage_service.Storage.Models.{Bucket, StorageObject, StorageAccessGrant, StoragePrincipal, Db}
use storage_service.Storage.Paths
use storage_service.Storage.Paths.{
  PathResult, safe_object_path, folder_placeholder_name, folder_placeholder_path,
}
use storage_service.Storage.Errors.{Call, storage_error}
use storage_service.Storage.Access.{can_access_path}
use storage_service.Storage.Resolve.{safe_path, object_named, or_not_found, assert_can_access_path}
use storage_service.Storage.Objects.{
  Platform, Blob, admit, charge, or_raise, or_owner, insert_object, make_private, new_object,
  store_object, existing_object, delete_object,
}

abbrev pub prefix_filter : Text → Text
prefix_filter folder_path =
    let prefix = strip_slashes folder_path in
    if is_empty prefix then prefix else prefix ++ slash ∷ []

abbrev pub in_bucket : Bucket → StorageObject → Bool
in_bucket bucket obj = obj.bucket_id == bucket.id

abbrev pub objects_under_prefix : Db → Bucket → Text → List StorageObject
objects_under_prefix db bucket folder_path =
    keep (λ o. in_bucket bucket o && starts_with o.name (prefix_filter folder_path)) db.objects

abbrev pub is_placeholder : Text → Bool
is_placeholder name =
    text_eq name folder_placeholder_name || ends_with name (slash ∷ folder_placeholder_name)

pub record PrefixSummary : Type 0 where
  pub prefix : Text
  pub object_count : ℕ
  pub file_count : ℕ
  pub placeholder_count : ℕ
  pub total_bytes : ℕ

abbrev pub total_size : List StorageObject → ℕ
total_size [] = 0
total_size (obj ∷ rest) = obj.size + total_size rest

-- `principal is None`, or the principal can read the object.
abbrev pub readable : Db → ℕ → Option StoragePrincipal → Bucket → StorageObject → Bool
readable db now none bucket obj = true
readable db now (some principal) bucket obj =
    can_access_path db now principal bucket obj.name (some obj.id) false false

unfoldable pub summarize_prefix : Db → ℕ → Bucket → Text → Option StoragePrincipal → PrefixSummary
summarize_prefix db now bucket folder_path principal =
    let seen =
      keep (readable db now principal bucket) (objects_under_prefix db bucket folder_path) in
    let placeholders = keep (λ o. is_placeholder o.name) seen in
    record {
      prefix = strip_slashes folder_path;
      object_count = length seen;
      file_count = length seen - length placeholders;
      placeholder_count = length placeholders;
      total_bytes = total_size seen;
    }

-- The loops that check write access to every object, and then delete them.
abbrev pub check_writable : ℕ → StoragePrincipal → Bucket → List StorageObject → Call (Unit {0})
check_writable now principal bucket [] = pure tt
check_writable now principal bucket (obj ∷ rest) = do
  seen ← assert_can_access_path now principal bucket obj true false
  check_writable now principal bucket rest

abbrev pub delete_all : Platform → List StorageObject → Call (List Text)
delete_all platform [] = pure []
delete_all platform (obj ∷ rest) = do
  delete_object platform obj
  names ← delete_all platform rest
  pure (obj.name ∷ names)

unfoldable pub delete_under_prefix :
    Platform → ℕ → Bucket → Text → StoragePrincipal → Call (List Text)
delete_under_prefix platform now bucket folder_path principal = atomic (do
  objs ← gets (λ db. objects_under_prefix db bucket folder_path)
  check_writable now principal bucket objs
  delete_all platform objs)

unfoldable pub empty_bucket : Platform → ℕ → Bucket → StoragePrincipal → Call (List Text)
empty_bucket platform now bucket principal = atomic (do
  objs ← gets (λ db. keep (in_bucket bucket) db.objects)
  check_writable now principal bucket objs
  delete_all platform objs)

-- The first loop of `delete_paths`: a path that is not safe, or names nothing, is skipped.
abbrev pub named_object : Db → Bucket → PathResult → Option StorageObject
named_object db bucket (Paths.ok name) = find (object_named bucket.id name) db.objects
named_object db bucket (Paths.err e) = none

abbrev pub checked :
    ℕ → StoragePrincipal → Bucket → Option StorageObject → Call (List StorageObject)
checked now principal bucket none = pure []
checked now principal bucket (some obj) = do
  obj ← assert_can_access_path now principal bucket obj true false
  pure (obj ∷ [])

abbrev pub collect_paths : ℕ → StoragePrincipal → Bucket → List Text → Call (List StorageObject)
collect_paths now principal bucket [] = pure []
collect_paths now principal bucket (raw ∷ rest) = do
  found ← gets (λ db. named_object db bucket (safe_object_path raw))
  first ← checked now principal bucket found
  later ← collect_paths now principal bucket rest
  pure (first ++ later)

unfoldable pub delete_paths :
    Platform → ℕ → Bucket → List Text → StoragePrincipal → Call (List Text)
delete_paths platform now bucket paths principal =
    atomic (do objs ← collect_paths now principal bucket paths; delete_all platform objs)

abbrev pub exists_named : Db → Bucket → Text → Bool
exists_named db bucket name = any (object_named bucket.id name) db.objects

abbrev pub found_object : Bucket → Text → Call StorageObject
found_object bucket name = do
  found ← existing_object bucket name
  or_not_found (codes "object_not_found") found

abbrev pub check_free : Bucket → Text → Call (Unit {0})
check_free bucket name = do
  taken ← gets (λ db. exists_named db bucket name)
  check (not taken) (storage_error 400 (codes "resource_already_exists")) tt

-- `save(update_fields=['bucket', 'name', 'updated_at'])`.
abbrev pub placed : ℕ → Text → StorageObject → StorageObject
placed bucket_id name obj = record obj { bucket_id = bucket_id; name = name }

abbrev pub place_object : StorageObject → ℕ → Text → Call StorageObject
place_object obj bucket_id name db = (
  ok (placed bucket_id name obj),
  record db { objects = update_where (λ o. o.id == obj.id) (placed bucket_id name) db.objects },
)

abbrev pub is_of : ℕ → Option ℕ → Bool
is_of id none = false
is_of id (some object_id) = object_id == id

abbrev pub move_grants : ℕ → ℕ → Call (Unit {0})
move_grants object_id bucket_id db = (
  ok tt,
  record db {
    grants =
        update_where (λ g. is_of object_id g.object_id) (λ g. record g { bucket_id = bucket_id })
          db.grants;
  },
)

abbrev pub move_across : Bucket → Bucket → StorageObject → Text → Call StorageObject
move_across bucket dest_bucket obj dest_name =
    if bucket.id == dest_bucket.id then place_object obj obj.bucket_id dest_name else do
      check (bucket.company_id == dest_bucket.company_id) (storage_error 403 (codes "forbidden")) tt
      moved ← place_object obj dest_bucket.id dest_name
      move_grants obj.id dest_bucket.id
      pure moved

unfoldable pub move_object : Bucket → Text → Bucket → Text → Call StorageObject
move_object bucket source_path dest_bucket dest_path = atomic (do
  source_name ← safe_path (safe_object_path source_path)
  dest_name ← safe_path (safe_object_path dest_path)
  obj ← found_object bucket source_name
  check_free dest_bucket dest_name
  move_across bucket dest_bucket obj dest_name)

-- A copy starts at version 1, and belongs to `owner_id` or else to the owner of the source.
abbrev pub copy_of : Platform → ℕ → Bucket → Text → Option ℕ → StorageObject → StorageObject
copy_of platform id dest_bucket name owner_id src =
    new_object platform id dest_bucket name (or_owner owner_id src.owner_id) src.size src.etag
      src.mime_type src.metadata

unfoldable pub copy_object :
    Platform → (ℕ → ℕ) → ℕ → Bucket → Text → Bucket → Text → Option ℕ → Call StorageObject
copy_object platform fresh now bucket source_path dest_bucket dest_path owner_id = atomic (do
  source_name ← safe_path (safe_object_path source_path)
  dest_name ← safe_path (safe_object_path dest_path)
  src ← found_object bucket source_name
  check_free dest_bucket dest_name
  check (bucket.company_id == dest_bucket.company_id) (storage_error 403 (codes "forbidden")) tt
  admit platform dest_bucket.company_id owner_id src.size 0
  store_object platform fresh now dest_bucket
      (copy_of platform (fresh 0) dest_bucket dest_name owner_id src)
      (platform.open_blob src.storage_key))
