-- ===== src/Storage/Grants/Requests.antt =====
-- apps/storage/grants.py: what `create_grant` reads from the body of a request. Its texts are
-- stripped as the code does it, and `parse_datetime` with the zone is `parse_expires_at` of the model.
use storage_service.Prelude.{
  ℕ, Bool, true, false, not, ◌&&◌, [], ◌∷◌, Option, none, some, if◌then◌else◌, take,
}
use storage_service.Prelude.Outcome.{pure, fail, check, ◌>>=◌, ◌>>◌}
use storage_service.Text.{Text, codes, text_eq, is_empty}
use storage_service.Text.Trim.{strip, strip_slashes}
use storage_service.Storage.Models.{SubjectType, ResourceType, Permission, Effect}
use storage_service.Storage.Access.{}
use storage_service.Storage.Errors.{Call, storage_error}
use storage_service.Storage.Resolve.{company_bucket_name}
use storage_service.Storage.Shares.{Expiry, parse_expires_at}

-- The body of a request: its texts as `str` makes them, empty where there is no value.
pub record GrantRequest : Type 0 where
  pub subject_type : Text
  pub subject_id : Text
  pub resource_type : Text
  pub resource_id : Text
  pub permission : Text
  pub effect : Text
  pub bucket : Text
  pub notes : Text
  pub expires_at : Expiry

abbrev pub or_text : Text → Text → Text
or_text default [] = default
or_text default (c ∷ s) = c ∷ s

-- The choices of the columns.
abbrev pub subject_type_of : Text → Option SubjectType
subject_type_of s =
    if text_eq s (codes "user")
    then some SubjectType.user
    else if text_eq s (codes "group")
    then some SubjectType.group
    else if text_eq s (codes "company")
    then some SubjectType.company
    else none

abbrev pub resource_type_of : Text → Option ResourceType
resource_type_of s =
    if text_eq s (codes "bucket")
    then some ResourceType.bucket
    else if text_eq s (codes "folder")
    then some ResourceType.folder
    else if text_eq s (codes "object")
    then some ResourceType.object
    else none

abbrev pub permission_of : Text → Option Permission
permission_of s =
    if text_eq s (codes "read")
    then some Permission.read
    else if text_eq s (codes "write")
    then some Permission.write
    else if text_eq s (codes "admin")
    then some Permission.admin
    else none

abbrev pub effect_of : Text → Option Effect
effect_of s =
    if text_eq s (codes "allow")
    then some Effect.allow
    else if text_eq s (codes "deny")
    then some Effect.deny
    else none

abbrev pub choice : {A : Type 0} → Text → Option A → Call A
choice code none = fail (storage_error 400 code)
choice code (some a) = pure a

-- `_normalize_resource_id`: an unknown type with an empty identifier passes here.
abbrev pub needs_resource : Option ResourceType → Bool
needs_resource none = false
needs_resource (some resource_type) = true

abbrev pub normalize_resource_id : Option ResourceType → Text → Call Text
normalize_resource_id resource_type resource_id =
    let rid = strip_slashes (strip resource_id) in
    check (not (needs_resource resource_type && is_empty rid))
      (storage_error 400 (codes "invalid_resource")) rid

abbrev pub is_bucket_type : ResourceType → Bool
is_bucket_type ResourceType.bucket = true
is_bucket_type _ = false

-- What `create_grant` reads from a request, in the order of its errors: the name of the bucket, the
-- path, and the columns of the grant.
pub record ReadRequest : Type 0 where
  pub name : Text
  pub path : Text
  pub subject_type : SubjectType
  pub subject_id : Text
  pub resource_type : ResourceType
  pub permission : Permission
  pub effect : Effect
  pub expires_at : Option ℕ
  pub notes : Text

abbrev pub requested_bucket : ResourceType → Text → Text → Text
requested_bucket resource_type resource_id name =
    if is_bucket_type resource_type
    then resource_id
    else or_text company_bucket_name (strip (or_text company_bucket_name name))

unfoldable pub read_request : GrantRequest → Call ReadRequest
unfolding parse_expires_at
read_request request = do
  resource_id ←
      normalize_resource_id (resource_type_of (strip request.resource_type)) request.resource_id
  expires_at ← parse_expires_at request.expires_at
  subject_type ←
      choice (codes "invalid_subject_type") (subject_type_of (strip request.subject_type))
  check (not (is_empty (strip request.subject_id))) (storage_error 400 (codes "invalid_subject_id"))
      tt
  resource_type ←
      choice (codes "invalid_resource_type") (resource_type_of (strip request.resource_type))
  permission ←
      choice (codes "invalid_permission")
        (permission_of (strip (or_text (codes "read") request.permission)))
  effect ←
      choice (codes "invalid_effect") (effect_of (strip (or_text (codes "allow") request.effect)))
  pure (record {
    name = requested_bucket resource_type resource_id request.bucket;
    path = resource_id;
    subject_type = subject_type;
    subject_id = strip request.subject_id;
    resource_type = resource_type;
    permission = permission;
    effect = effect;
    expires_at = expires_at;
    notes = take 255 request.notes;
  })
