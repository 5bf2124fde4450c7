-- ===== src/Storage/Defaults.antt =====
-- Private by default: apps/storage/access.py from `_resource_grants_exist` to
-- `apply_default_private_on_create`. The functions that write take the identifiers of the rows
-- they create from `fresh`, in order; what they create is appended to the table of grants.
pub mod Private
use storage_service.Prelude.{
  ℕ, ◌+◌, Bool, true, false, not, ◌||◌, ◌&&◌, List, [], ◌∷◌, ◌++◌, map, Option, none, some, ◌==◌,
  if◌then◌else◌, keep, any, find, String,
}
use mathlib.Core.List.{reverse}
use storage_service.Text.{Text, codes, text_eq, is_empty}
use storage_service.Text.Affix.{ends_with}
use storage_service.Text.Decimal.{str}
use storage_service.Storage.Models.{
  Bucket, StorageObject, SubjectType, ResourceType, Permission, Effect, StorageAccessGrant, Db,
}
use storage_service.Text.{slash}
use storage_service.Storage.Paths.{
  normalize_path, folder_placeholder_name, folder_placeholder_path, folder_path_from_placeholder,
  ancestor_folder_prefixes,
}
use storage_service.Storage.Access.{active_grants}
use storage_service.Storage.Inherited.{bucket_name, is_folder_type, nearest_ancestor_folder_grants}

abbrev pub same_resource_type : ResourceType → ResourceType → Bool
same_resource_type ResourceType.bucket ResourceType.bucket = true
same_resource_type ResourceType.folder ResourceType.folder = true
same_resource_type ResourceType.object ResourceType.object = true
same_resource_type _ _ = false

abbrev pub is_object : ℕ → Option ℕ → Bool
is_object id none = false
is_object id (some target) = target == id

unfoldable pub resource_grants_exist : Db → ℕ → StorageObject → ResourceType → Bool
resource_grants_exist db now target resource_type =
    any
      (λ g.
        same_resource_type g.resource_type resource_type
        && is_object target.id g.object_id
        && (g.bucket_id == target.bucket_id))
      (active_grants db now target.company_id)

abbrev pub auto_private_notes : Text
auto_private_notes = codes "auto: private by default"

-- `src.notes or AUTO_PRIVATE_NOTES`.
abbrev pub notes_or_auto : Text → Text
notes_or_auto [] = auto_private_notes
notes_or_auto (c ∷ s) = c ∷ s

-- The row that `StorageAccessGrant.objects.create` makes.
abbrev pub copied_grant : ℕ → ℕ → StorageObject → StorageAccessGrant → StorageAccessGrant
copied_grant id user_id target src = record {
  id = id;
  company_id = target.company_id;
  bucket_id = target.bucket_id;
  object_id = some target.id;
  subject_type = src.subject_type;
  subject_id = src.subject_id;
  resource_type = ResourceType.folder;
  permission = src.permission;
  effect = src.effect;
  created_by_id = some user_id;
  expires_at = src.expires_at;
  notes = notes_or_auto src.notes;
}

unfoldable pub copy_folder_grants :
    (ℕ → ℕ) → ℕ → ℕ → StorageObject → List StorageAccessGrant → List StorageAccessGrant
copy_folder_grants fresh i user_id target [] = []
copy_folder_grants fresh i user_id target (src ∷ rest) =
    copied_grant (fresh i) user_id target src ∷ copy_folder_grants fresh (i + 1) user_id target rest

abbrev pub private_grant :
    ℕ
    → ℕ
    → StorageObject
    → ResourceType
    → SubjectType
    → Text
    → Permission
    → Effect
    → StorageAccessGrant
private_grant id user_id target resource_type subject_type subject_id permission effect = record {
  id = id;
  company_id = target.company_id;
  bucket_id = target.bucket_id;
  object_id = some target.id;
  subject_type = subject_type;
  subject_id = subject_id;
  resource_type = resource_type;
  permission = permission;
  effect = effect;
  created_by_id = some user_id;
  expires_at = none;
  notes = auto_private_notes;
}

-- Deny reading to the company, and allow everything to the creator.
abbrev pub company_deny : ℕ → ℕ → StorageObject → ResourceType → StorageAccessGrant
company_deny id user_id target resource_type =
    private_grant id user_id target resource_type SubjectType.company (str target.company_id)
      Permission.read Effect.deny

abbrev pub creator_allow : ℕ → ℕ → StorageObject → ResourceType → StorageAccessGrant
creator_allow id user_id target resource_type =
    private_grant id user_id target resource_type SubjectType.user (str user_id) Permission.admin
      Effect.allow

abbrev pub private_pair : (ℕ → ℕ) → ℕ → StorageObject → ResourceType → List StorageAccessGrant
private_pair fresh user_id target resource_type =
    company_deny (fresh 0) user_id target resource_type
    ∷ creator_allow (fresh 1) user_id target resource_type
    ∷ []

-- The path whose parents may pass on their grants.
abbrev pub guarded_path : StorageObject → ResourceType → Text
guarded_path target resource_type =
    if is_folder_type resource_type
    then folder_path_from_placeholder target.name
    else normalize_path (some target.name)

-- Under a folder that has grants: a new folder copies them, and a new file gets none. An empty
-- prefix is falsy in `if nearest and parent_grants`.
abbrev pub inherit_or_private :
    (ℕ → ℕ)
    → ℕ
    → StorageObject
    → ResourceType
    → Option (Text × List StorageAccessGrant)
    → List StorageAccessGrant
inherit_or_private fresh user_id target resource_type none =
    private_pair fresh user_id target resource_type
inherit_or_private fresh user_id target resource_type (some (nearest, parent_grants)) =
    if is_empty nearest
    then private_pair fresh user_id target resource_type
    else if is_folder_type resource_type
    then copy_folder_grants fresh 0 user_id target parent_grants
    else []

-- The grants that `ensure_default_private_access` creates.
unfoldable pub default_private_grants :
    (ℕ → ℕ) → Db → ℕ → Option ℕ → StorageObject → ResourceType → List StorageAccessGrant
default_private_grants fresh db now none target resource_type = []
default_private_grants fresh db now (some user_id) target resource_type =
    let path = guarded_path target resource_type in
    if same_resource_type resource_type ResourceType.bucket
    then []
    else if is_empty path
    then []
    else if resource_grants_exist db now target resource_type
    then []
    else inherit_or_private fresh user_id target resource_type (
        nearest_ancestor_folder_grants db now target.company_id
          (bucket_name db.buckets target.bucket_id) path)

unfoldable pub ensure_default_private_access :
    (ℕ → ℕ) → Db → ℕ → Option ℕ → StorageObject → ResourceType → Db
unfolding default_private_grants
ensure_default_private_access fresh db now user_id target resource_type = record db {
  grants = db.grants ++ default_private_grants fresh db now user_id target resource_type;
}

unfoldable pub apply_default_private_on_create :
    (ℕ → ℕ) → Db → ℕ → StorageObject → Option ℕ → Bool → Db
apply_default_private_on_create fresh db now instance' none is_folder = db
apply_default_private_on_create fresh db now instance' (some user_id) is_folder =
    let path = normalize_path (some instance'.name) in
    let type =
      (if is_folder || ends_with path (slash ∷ folder_placeholder_name)
        then ResourceType.folder
        else ResourceType.object) in
    if is_empty path || text_eq path folder_placeholder_name
    then db
    else if is_folder_type type && is_empty (folder_path_from_placeholder path)
    then db
    else ensure_default_private_access fresh db now (some user_id) instance' type
