-- ===== src/Storage/Grants.antt =====
-- apps/storage/grants.py, and `ensure_folder_marker` of apps/storage/services.py. What a request says
-- is read in Requests; `parse_uuid` is Python's. `fresh 0` is the identifier of a new bucket,
-- `fresh 1` of a new folder marker and `fresh 2` of the grant. `int(principal.user_id)` is the user
-- of the principal: one without a user has been refused before. Listings are left out.
pub mod Created
pub mod Requests
use storage_service.Prelude.{
  ℕ, Bool, true, false, not, ◌||◌, ◌&&◌, List, [], ◌∷◌, ◌++◌, Option, none, some, ◌==◌,
  if◌then◌else◌, find, keep, or_else,
}
use storage_service.Prelude.Outcome.{ok, pure, gets, check, ◌>>=◌, ◌>>◌}
use storage_service.Text.{Text, codes}
use storage_service.Text.Trim.{strip, strip_slashes}
use storage_service.Storage.Models.{
  Bucket, StorageObject, SubjectType, ResourceType, Effect, StorageAccessGrant, StoragePrincipal,
  Db,
}
use storage_service.Storage.Paths.{folder_placeholder_path, folder_path_from_placeholder}
use storage_service.Storage.Access.{
  can_access_bucket, can_access_path, object_name, is_allow, is_admin_permission,
  is_read_permission,
}
use storage_service.Storage.Inherited.{can_open_to_company, is_company_subject, bucket_name}
use storage_service.Storage.Errors.{Call, storage_error}
use storage_service.Storage.Resolve.{
  require_company_id, get_accessible_bucket, object_named, or_not_found,
}
use storage_service.Storage.Shares.{is_company_admin}
use storage_service.Storage.Grants.Requests.{
  GrantRequest, ReadRequest, read_request, is_bucket_type,
}
use storage_service.Storage.Objects.{Platform, or_raise, insert_object, new_object}

-- What a member who is no administrator needs on the resource: writing, or its administration.
abbrev pub may_manage : Db → ℕ → StoragePrincipal → Bucket → ResourceType → Text → Bool → Bool
may_manage db now principal bucket resource_type path for_admin =
    if is_bucket_type resource_type
    then can_access_bucket db now principal bucket (not for_admin) for_admin
    else can_access_path db now principal bucket path none (not for_admin) for_admin

abbrev pub denied_code : ResourceType → Text
denied_code ResourceType.bucket = codes "bucket_access_denied"
denied_code _ = codes "path_access_denied"

-- `_assert_can_manage_resource`.
unfoldable pub assert_can_manage_resource :
    ℕ → ℕ → StoragePrincipal → Text → ResourceType → Text → Bool → Call (Unit {0})
assert_can_manage_resource fresh now principal name resource_type path for_admin = do
  bucket ← get_accessible_bucket fresh now principal name false false
  allowed ← gets (λ db.
      is_company_admin principal || may_manage db now principal bucket resource_type path for_admin)
  check allowed (storage_error 403 (denied_code resource_type)) tt

abbrev pub assert_can_open : ℕ → ℕ → Text → Text → Call (Unit {0})
assert_can_open now company_id name path = do
  open_path ← gets (λ db. can_open_to_company db now company_id name path)
  check open_path (storage_error 400 (codes "parent_folder_private")) tt

-- `assert_can_open_to_company`, where the grant opens a path to the company.
abbrev pub opens_to_company : Effect → SubjectType → ResourceType → Bool
opens_to_company effect subject_type resource_type =
    is_allow effect && is_company_subject subject_type && not (is_bucket_type resource_type)

abbrev pub guard_open : Bool → ℕ → ℕ → Text → Text → Call (Unit {0})
guard_open true now company_id name path = assert_can_open now company_id name path
guard_open false now company_id name path = pure tt

-- `ensure_folder_marker`.
abbrev pub marker_or_new :
    Platform → ℕ → Bucket → Text → Option ℕ → Option StorageObject → Call StorageObject
marker_or_new platform id bucket name owner_id (some existing) = pure existing
marker_or_new platform id bucket name owner_id none = do
  let obj = new_object platform id bucket name owner_id 0 [] (codes "application/octet-stream") []
  or_raise (platform.save_blob obj.storage_key [])
  insert_object obj

unfoldable pub ensure_folder_marker : Platform → ℕ → Bucket → Text → Option ℕ → Call StorageObject
ensure_folder_marker platform id bucket folder_path owner_id = do
  let name = folder_placeholder_path folder_path
  existing ← gets (λ db. find (object_named bucket.id name) db.objects)
  marker_or_new platform id bucket name owner_id existing

-- `_resolve_object`.
abbrev pub by_uuid : List StorageObject → ℕ → Option ℕ → Option StorageObject
by_uuid objects bucket_id none = none
by_uuid objects bucket_id (some id) = find (λ o. (o.bucket_id == bucket_id) && (o.id == id)) objects

unfoldable pub resolve_object : (Text → Option ℕ) → Bucket → Text → Call StorageObject
resolve_object parse_uuid bucket resource_id = do
  found ← gets (λ db.
      or_else (by_uuid db.objects bucket.id (parse_uuid resource_id))
        (find (object_named bucket.id resource_id) db.objects))
  or_not_found (codes "object_not_found") found

abbrev pub grant_of : ℕ → ℕ → Option ℕ → ℕ → Option ℕ → ReadRequest → StorageAccessGrant
grant_of id company_id user_id bucket_id object_id read = record {
  id = id;
  company_id = company_id;
  bucket_id = bucket_id;
  object_id = object_id;
  subject_type = read.subject_type;
  subject_id = read.subject_id;
  resource_type = read.resource_type;
  permission = read.permission;
  effect = read.effect;
  created_by_id = user_id;
  expires_at = read.expires_at;
  notes = read.notes;
}

abbrev pub some_id : StorageObject → Call (Option ℕ)
some_id obj = pure (some obj.id)

abbrev pub grant_target :
    Platform
    → (Text → Option ℕ)
    → ℕ
    → Bucket
    → ReadRequest
    → Option ℕ
    → ResourceType
    → Call (Option ℕ)
grant_target platform parse_uuid id bucket read owner_id ResourceType.bucket = pure none
grant_target platform parse_uuid id bucket read owner_id ResourceType.object =
    resolve_object parse_uuid bucket read.path >>= some_id
grant_target platform parse_uuid id bucket read owner_id ResourceType.folder =
    ensure_folder_marker platform id bucket read.path owner_id >>= some_id

abbrev pub insert_grant : StorageAccessGrant → Call StorageAccessGrant
insert_grant grant db = (ok grant, record db { grants = db.grants ++ grant ∷ [] })

abbrev pub needs_admin : ReadRequest → Bool
needs_admin read = not (is_allow read.effect) || is_admin_permission read.permission

abbrev pub opens : ReadRequest → Bool
opens read = opens_to_company read.effect read.subject_type read.resource_type

-- The calls of `create_grant` that follow, each with the next.
module _ (platform : Platform) (parse_uuid : Text → Option ℕ) (fresh : ℕ → ℕ) (now : ℕ)
    (principal : StoragePrincipal) where
  abbrev pub add_grant : ℕ → ReadRequest → Bucket → Call StorageAccessGrant
  add_grant company_id read bucket = do
    object_id ←
        grant_target platform parse_uuid (fresh 1) bucket read principal.user_id read.resource_type
    insert_grant (grant_of (fresh 2) company_id principal.user_id bucket.id object_id read)

  abbrev pub open_and_add : ℕ → ReadRequest → Bucket → Call StorageAccessGrant
  open_and_add company_id read bucket =
      guard_open (opens read) now company_id read.name read.path >> add_grant company_id read bucket

  abbrev pub manage_and_add : ℕ → ReadRequest → Bucket → Call StorageAccessGrant
  manage_and_add company_id read bucket =
      assert_can_manage_resource (fresh 0) now principal read.name read.resource_type read.path
        (needs_admin read)
      >> open_and_add company_id read bucket

  abbrev pub grant_read : ℕ → ReadRequest → Call StorageAccessGrant
  grant_read company_id read =
      get_accessible_bucket (fresh 0) now principal read.name false false
      >>= manage_and_add company_id read

  abbrev pub grant_for : GrantRequest → ℕ → Call StorageAccessGrant
  grant_for request company_id = read_request request >>= grant_read company_id

  unfoldable pub create_grant : GrantRequest → Call StorageAccessGrant
  create_grant request = require_company_id principal >>= grant_for request

-- `grant.resource_path()`.
abbrev pub object_path : List StorageObject → Option ℕ → Text
object_path objects none = []
object_path objects (some id) = strip_slashes (strip (object_name objects id))

abbrev pub folder_path : List StorageObject → Option ℕ → Text
folder_path objects none = []
folder_path objects (some id) = folder_path_from_placeholder (object_name objects id)

abbrev pub resource_path : Db → StorageAccessGrant → Text
resource_path db grant = elim grant.resource_type [
  | ResourceType.bucket ↦ bucket_name db.buckets grant.bucket_id
  | ResourceType.folder ↦ folder_path db.objects grant.object_id
  | ResourceType.object ↦ object_path db.objects grant.object_id
]

abbrev pub same_user : Option ℕ → Option ℕ → Bool
same_user none user_id = false
same_user (some a) none = false
same_user (some a) (some b) = a == b

-- A deletion of such a grant opens a path to the company.
abbrev pub closes_to_company : StorageAccessGrant → Bool
closes_to_company grant =
    not (is_allow grant.effect)
    && is_company_subject grant.subject_type
    && is_read_permission grant.permission
    && not (is_bucket_type grant.resource_type)

abbrev pub remove_grant : ℕ → Call (Unit {0})
remove_grant id db = (ok tt, record db { grants = keep (λ g. not (g.id == id)) db.grants })

abbrev pub manage_unless : Bool → Call (Unit {0}) → Call (Unit {0})
manage_unless true call = pure tt
manage_unless false call = call

unfoldable pub delete_grant : ℕ → ℕ → StoragePrincipal → ℕ → Call (Unit {0})
unfolding require_company_id assert_can_manage_resource
delete_grant fresh now principal id = do
  company_id ← require_company_id principal
  found ← gets (λ db. find (λ g. (g.id == id) && (g.company_id == company_id)) db.grants)
  grant ← or_not_found (codes "grant_not_found") found
  check (is_company_admin principal || same_user grant.created_by_id principal.user_id)
      (storage_error 403 (codes "grant_delete_denied")) tt
  name ← gets (λ db. bucket_name db.buckets grant.bucket_id)
  path ← gets (λ db. resource_path db grant)
  manage_unless (is_company_admin principal) (
      assert_can_manage_resource fresh now principal name grant.resource_type path
        (not (is_allow grant.effect)))
  guard_open (closes_to_company grant) now company_id name path
  remove_grant grant.id
