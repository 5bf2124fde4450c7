-- ===== src/Storage/Resolve.antt =====
-- Buckets and objects as a request names them: `require_company_id` of apps/storage/services.py,
-- and `ensure_company_bucket` to `get_accessible_object` of apps/storage/access.py. The event
-- that a new bucket emits is left out. `fresh` is the identifier of a new bucket.
use storage_service.Prelude.{
  ℕ, Bool, true, false, not, ◌||◌, ◌&&◌, List, [], ◌∷◌, ◌++◌, Option, none, some, ◌==◌,
  if◌then◌else◌, find, keep, update_where,
}
use storage_service.Prelude.Outcome.{ok, pure, fail, gets, check, ◌>>=◌, ◌>>◌}
use storage_service.Text.{Text, codes, text_eq}
use storage_service.Storage.Models.{Bucket, BucketKind, StorageObject, StoragePrincipal, Db}
use storage_service.Storage.Paths
use storage_service.Storage.Paths.{PathResult, safe_object_path}
use storage_service.Storage.Access.{can_access_bucket, can_access_path}
use storage_service.Storage.Errors.{Call, storage_error, value_error}

abbrev pub company_bucket_name : Text
company_bucket_name = codes "company"

unfoldable pub require_company_id : StoragePrincipal → Call ℕ
require_company_id principal = elim principal.company_id [
  | none ↦ fail (storage_error 403 (codes "missing_company"))
  | some company_id ↦ pure company_id
]

abbrev pub bucket_named : ℕ → Text → Bucket → Bool
bucket_named company_id name b = (b.company_id == company_id) && text_eq b.name name

abbrev pub new_company_bucket : ℕ → ℕ → Bucket
new_company_bucket id company_id = record {
  id = id;
  name = company_bucket_name;
  company_id = company_id;
  kind = BucketKind.company;
  public = false;
  file_size_limit = none;
  allowed_mime_types = [];
  owner_id = none;
  connector_provider = [];
}

abbrev pub is_company_kind : BucketKind → Bool
is_company_kind BucketKind.company = true
is_company_kind BucketKind.connector = false

-- A company bucket is private and has no owner; a row that says otherwise is put right.
abbrev pub repaired : Bucket → Bucket
repaired b =
    if not (is_company_kind b.kind) || b.public
    then record b { kind = BucketKind.company; public = false; owner_id = none }
    else b

abbrev pub found_or_new : ℕ → ℕ → Db → Option Bucket → Db
found_or_new id company_id db none = record db {
  buckets = db.buckets ++ new_company_bucket id company_id ∷ [];
}
found_or_new id company_id db (some b) = record db {
  buckets = update_where (λ c. c.id == b.id) repaired db.buckets;
}

unfoldable pub ensure_company_bucket : ℕ → ℕ → Db → Db
ensure_company_bucket fresh company_id db =
    found_or_new fresh company_id db (find (bucket_named company_id company_bucket_name) db.buckets)

abbrev pub or_not_found : {A : Type 0} → Text → Option A → Call A
or_not_found code none = fail (storage_error 404 code)
or_not_found code (some a) = pure a

-- The listing's order by kind and name is left out.
unfoldable pub list_accessible_buckets : ℕ → ℕ → StoragePrincipal → Call (List Bucket)
unfolding require_company_id
list_accessible_buckets fresh now principal = do
  company_id ← require_company_id principal
  λ db.
      let db' = ensure_company_bucket fresh company_id db in
      pure
        (keep
          (λ b. (b.company_id == company_id) && can_access_bucket db' now principal b false false)
          db'.buckets)
        db'

unfoldable pub get_accessible_bucket : ℕ → ℕ → StoragePrincipal → Text → Bool → Bool → Call Bucket
unfolding require_company_id
get_accessible_bucket fresh now principal name for_write for_admin = do
  company_id ← require_company_id principal
  λ db. (ok tt, ensure_company_bucket fresh company_id db)
  found ← gets (λ db. find (bucket_named company_id name) db.buckets)
  bucket ← or_not_found (codes "bucket_not_found") found
  allowed ← gets (λ db. can_access_bucket db now principal bucket for_write for_admin)
  check allowed (storage_error 403 (codes "bucket_access_denied")) bucket

abbrev pub safe_path : PathResult → Call Text
safe_path (Paths.ok name) = pure name
safe_path (Paths.err e) = fail (value_error e)

abbrev pub object_named : ℕ → Text → StorageObject → Bool
object_named bucket_id name obj = (obj.bucket_id == bucket_id) && text_eq obj.name name

-- `safe_object_path`, then `StorageObject.objects.filter(bucket=bucket, name=name).first()`.
unfoldable pub find_object : Bucket → Text → Call StorageObject
find_object bucket path = do
  name ← safe_path (safe_object_path path)
  found ← gets (λ db. find (object_named bucket.id name) db.objects)
  or_not_found (codes "object_not_found") found

-- `assert_can_access_path`.
unfoldable pub assert_can_access_path :
    ℕ → StoragePrincipal → Bucket → StorageObject → Bool → Bool → Call StorageObject
assert_can_access_path now principal bucket obj for_write for_admin = do
  allowed ←
      gets
        (λ db. can_access_path db now principal bucket obj.name (some obj.id) for_write for_admin)
  check allowed (storage_error 403 (codes "path_access_denied")) obj

unfoldable pub get_accessible_object :
    ℕ → ℕ → StoragePrincipal → Text → Text → Bool → Bool → Call (Bucket × StorageObject)
unfolding get_accessible_bucket find_object assert_can_access_path
get_accessible_object fresh now principal bucket_name path for_write for_admin = do
  bucket ← get_accessible_bucket fresh now principal bucket_name for_write for_admin
  obj ← find_object bucket path
  obj ← assert_can_access_path now principal bucket obj for_write for_admin
  pure (bucket, obj)
