-- ===== src/Storage/Objects.antt =====
-- apps/storage/services.py: the operations on objects. The blob store, MD5 and `mimetypes` are
-- libraries: `Platform` has what the code takes from them. The receivers of the signals that an
-- upload and a removal send are left out; they log, emit events and extend the metadata. `fresh 0`
-- is the identifier of a new object, and `fresh 1`, `fresh 2`, ... are those of its grants.
pub mod Balance
pub mod Stores
pub mod Uploads
use storage_service.Prelude.{
  ℕ, ◌+◌, ◌-◌, Bool, true, false, not, ◌||◌, ◌&&◌, List, [], ◌∷◌, ◌++◌, map, Option, none, some,
  ◌==◌, leb, ltb, if◌then◌else◌, find, keep, any, update_where, take, drop, length, is_some,
}
use storage_service.Prelude.Int.{ℤ, sub_ℕ}
use storage_service.Prelude.Outcome.{
  Outcome, ok, raised, pure, fail, gets, check, atomic, ◌>>=◌, ◌>>◌,
}
use storage_service.Text.{Text, codes, text_eq, is_empty, slash}
use storage_service.Text.Affix.{starts_with, ends_with}
use storage_service.Text.Split.{split}
use storage_service.Text.Trim.{strip_slashes}
use storage_service.Storage.Models.{
  Bucket, StorageObject, StorageAccessGrant, ObjectShareLink, StoragePrincipal, Db,
}
use storage_service.Storage.Paths.{
  safe_object_path, folder_placeholder_name, folder_placeholder_path,
}
use storage_service.Storage.Errors.{Call, Failure, storage_error}
use storage_service.Storage.Quotas.{
  QuotaSettings, QuotaExceeded, company_quota_exceeded, user_quota_exceeded, assert_can_store,
  apply_usage_delta,
}
use storage_service.Storage.Access.{can_access_path}
use storage_service.Storage.Defaults.{apply_default_private_on_create}
use storage_service.Storage.Resolve.{safe_path, object_named, or_not_found, assert_can_access_path}
use storage_service.Storage.Mime.{mime_allowed, normalize_mime_type}

abbrev pub Blob : Type 0
Blob = List ℕ

-- What the code calls: the exception, if any, that `_save_blob` and `delete_storage_key` raise,
-- the content behind a key, `build_storage_key` but for its settings, MD5, and two text functions. Reading
-- a blob that a row names does not fail here.
pub record Platform : Type 0 where
  pub quota_settings : QuotaSettings
  pub max_upload_bytes : ℕ
  pub save_blob : Text → Blob → Option Failure
  pub delete_storage_key : Text → Option Failure
  pub open_blob : Text → Blob
  pub build_storage_key : ℕ → Text → Text → ℕ → Text
  pub content_etag : Blob → Text
  pub lower : Text → Text
  pub guess_mime_type : Text → Text

abbrev pub or_raise : Option Failure → Call (Unit {0})
or_raise none = pure tt
or_raise (some e) = fail e

-- The `StorageError` that a `QuotaExceeded` becomes.
abbrev pub quota_error : QuotaExceeded → Failure
quota_error company_quota_exceeded = storage_error 413 (codes "company_quota_exceeded")
quota_error user_quota_exceeded = storage_error 413 (codes "user_quota_exceeded")

abbrev pub quota_outcome : Outcome QuotaExceeded (Unit {0}) × Db → Outcome Failure (Unit {0}) × Db
quota_outcome (ok u, db) = (ok u, db)
quota_outcome (raised e, db) = (raised (quota_error e), db)

abbrev pub admit : Platform → ℕ → Option ℕ → ℕ → ℕ → Call (Unit {0})
admit platform company_id user_id additional replacing db =
    quota_outcome
      (assert_can_store platform.quota_settings company_id user_id additional replacing db)

abbrev pub charge : Platform → ℕ → Option ℕ → ℤ → Call (Unit {0})
charge platform company_id user_id delta db =
    (ok tt, apply_usage_delta platform.quota_settings company_id user_id delta db)

-- `bucket.file_size_limit or settings.MAX_UPLOAD_BYTES`, then the `min` with the latter.
abbrev pub upload_limit : ℕ → Option ℕ → ℕ
upload_limit max none = max
upload_limit max (some limit) = if limit == 0 then max else if leb limit max then limit else max

abbrev pub read_upload_bytes : Blob → ℕ → Call Blob
read_upload_bytes content max =
    let bytes = take (max + 1) content in
    check (not (ltb max (length bytes))) (storage_error 413 (codes "payload_too_large")) bytes

abbrev pub size_of : Option StorageObject → ℕ
size_of none = 0
size_of (some obj) = obj.size

abbrev pub or_owner : Option ℕ → Option ℕ → Option ℕ
or_owner none owner = owner
or_owner (some id) owner = some id

abbrev pub with_cache_control : List (Text × Text) → Option Text → List (Text × Text)
with_cache_control metadata none = metadata
with_cache_control metadata (some value) =
    if is_empty value
    then metadata
    else keep (λ entry. not (text_eq entry.0 (codes "cacheControl"))) metadata
      ++ (codes "cacheControl", value) ∷ []

-- `save()`, `create()` and `delete()` of a row, by its primary key. Removing an object removes
-- the grants and the links that point at it.
abbrev pub save_object : StorageObject → Call StorageObject
save_object obj db =
    (ok obj, record db { objects = update_where (λ o. o.id == obj.id) (λ o. obj) db.objects })

abbrev pub insert_object : StorageObject → Call StorageObject
insert_object obj db = (ok obj, record db { objects = db.objects ++ obj ∷ [] })

abbrev pub points_at : ℕ → Option ℕ → Bool
points_at id none = false
points_at id (some object_id) = object_id == id

abbrev pub remove_object : ℕ → Call (Unit {0})
remove_object id db = (
  ok tt,
  record db {
    objects = keep (λ o. not (o.id == id)) db.objects;
    grants = keep (λ g. not (points_at id g.object_id)) db.grants;
    links = keep (λ l. not (l.object_id == id)) db.links;
  },
)

abbrev pub make_private : (ℕ → ℕ) → ℕ → StorageObject → Option ℕ → Call (Unit {0})
make_private fresh now obj user_id db =
    (ok tt, apply_default_private_on_create (λ i. fresh (i + 1)) db now obj user_id false)

-- The two ends of `upload_object`: an object is overwritten, or it is new.
abbrev pub overwritten :
    Platform → StorageObject → Blob → Option ℕ → Text → List (Text × Text) → StorageObject
overwritten platform obj bytes owner_id mime metadata = record obj {
  size = length bytes;
  etag = platform.content_etag bytes;
  mime_type = mime;
  metadata = metadata;
  version = obj.version + 1;
  owner_id = or_owner owner_id obj.owner_id;
}

abbrev pub overwrite_object :
    Platform
    → Bucket
    → StorageObject
    → Blob
    → Option ℕ
    → Text
    → List (Text × Text)
    → Call StorageObject
overwrite_object platform bucket existing bytes owner_id mime metadata = do
  or_raise (platform.save_blob existing.storage_key bytes)
  saved ← save_object (overwritten platform existing bytes owner_id mime metadata)
  charge platform bucket.company_id owner_id (sub_ℕ (length bytes) existing.size)
  pure saved

abbrev pub new_object :
    Platform → ℕ → Bucket → Text → Option ℕ → ℕ → Text → Text → List (Text × Text) → StorageObject
new_object platform id bucket name owner_id size etag mime metadata = record {
  id = id;
  bucket_id = bucket.id;
  name = name;
  company_id = bucket.company_id;
  owner_id = owner_id;
  size = size;
  etag = etag;
  mime_type = mime;
  metadata = metadata;
  storage_key = platform.build_storage_key bucket.company_id bucket.name name id;
  version = 1;
  last_accessed_at = none;
}

-- Store the blob of a new object, insert its row, charge its owner, and make it private.
abbrev pub store_object :
    Platform → (ℕ → ℕ) → ℕ → Bucket → StorageObject → Blob → Call StorageObject
store_object platform fresh now bucket obj bytes = do
  or_raise (platform.save_blob obj.storage_key bytes)
  obj ← insert_object obj
  charge platform bucket.company_id obj.owner_id (sub_ℕ obj.size 0)
  make_private fresh now obj obj.owner_id
  pure obj

abbrev pub write_object :
    Platform
    → (ℕ → ℕ)
    → ℕ
    → Bucket
    → Text
    → Blob
    → Option ℕ
    → Text
    → List (Text × Text)
    → Option StorageObject
    → Call StorageObject
write_object platform fresh now bucket name bytes owner_id mime metadata (some existing) =
    overwrite_object platform bucket existing bytes owner_id mime metadata
write_object platform fresh now bucket name bytes owner_id mime metadata none =
    store_object platform fresh now bucket
      (new_object platform (fresh 0) bucket name owner_id (length bytes)
        (platform.content_etag bytes) mime metadata)
      bytes

abbrev pub existing_object : Bucket → Text → Call (Option StorageObject)
existing_object bucket name = gets (λ db. find (object_named bucket.id name) db.objects)

unfoldable pub upload_object :
    Platform
    → (ℕ → ℕ)
    → ℕ
    → Bucket
    → Text
    → Blob
    → Option ℕ
    → Option Text
    → Bool
    → List (Text × Text)
    → Option Text
    → Call StorageObject
upload_object platform fresh now bucket path content owner_id content_type upsert metadata
      cache_control =
    atomic (do
      name ← safe_path (safe_object_path path)
      let mime = normalize_mime_type platform.lower platform.guess_mime_type content_type name
      check (mime_allowed platform.lower mime bucket.allowed_mime_types)
          (storage_error 415 (codes "invalid_mime_type")) tt
      existing ← existing_object bucket name
      check (not (is_some existing) || upsert) (storage_error 400 (codes "resource_already_exists"))
          tt
      bytes ←
          read_upload_bytes content (upload_limit platform.max_upload_bytes bucket.file_size_limit)
      admit platform bucket.company_id owner_id (length bytes) (size_of existing)
      write_object platform fresh now bucket name bytes owner_id mime
          (with_cache_control metadata cache_control) existing)

unfoldable pub delete_object : Platform → StorageObject → Call (Unit {0})
delete_object platform obj = atomic (do
  remove_object obj.id
  or_raise (platform.delete_storage_key obj.storage_key)
  charge platform obj.company_id obj.owner_id (sub_ℕ 0 obj.size))
