-- ===== src/Storage/Inherited.antt =====
-- Grants on the folders above a path: apps/storage/access.py from `_folder_grants_for_prefixes` to
-- `assert_can_open_to_company`.
use storage_service.Prelude.{
  ℕ, Bool, true, false, not, ◌&&◌, List, [], ◌∷◌, map, Option, none, some, ◌==◌, keep, any, find,
}
use mathlib.Core.List.{reverse}
use storage_service.Text.{Text, text_eq, is_empty}
use storage_service.Text.Decimal.{str}
use storage_service.Storage.Models.{
  Bucket, StorageObject, SubjectType, ResourceType, Permission, StorageAccessGrant, Db,
}
use storage_service.Storage.Paths.{
  folder_placeholder_path, folder_path_from_placeholder, ancestor_folder_prefixes,
}
use storage_service.Storage.Access.{active_grants, object_name, deny_blocks, is_allow}

-- `grant.bucket.name`.
abbrev pub bucket_name_or_empty : Option Bucket → Text
bucket_name_or_empty none = []
bucket_name_or_empty (some b) = b.name

unfoldable pub bucket_name : List Bucket → ℕ → Text
bucket_name buckets id = bucket_name_or_empty (find (λ b. b.id == id) buckets)

abbrev pub is_folder_type : ResourceType → Bool
is_folder_type ResourceType.folder = true
is_folder_type _ = false

-- `object__name__in=names`: a grant with no object is not in the result.
abbrev pub object_name_in : List StorageObject → List Text → Option ℕ → Bool
object_name_in objects names none = false
object_name_in objects names (some id) = any (text_eq (object_name objects id)) names

unfoldable pub folder_grants_for_prefixes : Db → ℕ → ℕ → Text → List Text → List StorageAccessGrant
folder_grants_for_prefixes db now company_id bucket prefixes =
    let names = map folder_placeholder_path prefixes in
    keep
      (λ g.
        is_folder_type g.resource_type
        && object_name_in db.objects names g.object_id
        && text_eq (bucket_name db.buckets g.bucket_id) bucket)
      (active_grants db now company_id)

-- The folder of a folder grant.
abbrev pub granted_folder : List StorageObject → Option ℕ → Text
granted_folder objects none = []
granted_folder objects (some id) = folder_path_from_placeholder (object_name objects id)

-- `for prefix in reversed(ancestors): if prefix in by_prefix`.
abbrev pub first_with_grants :
    List StorageObject
    → List StorageAccessGrant
    → List Text
    → Option (Text × List StorageAccessGrant)
first_with_grants objects grants [] = none
first_with_grants objects grants (prefix ∷ rest) =
    let later = first_with_grants objects grants rest in
    let here = keep (λ g. text_eq (granted_folder objects g.object_id) prefix) grants in
    elim here [ [] ↦ later | g ∷ gs ↦ some (prefix, g ∷ gs) ]

unfoldable pub nearest_ancestor_folder_grants :
    Db → ℕ → ℕ → Text → Text → Option (Text × List StorageAccessGrant)
nearest_ancestor_folder_grants db now company_id bucket path =
    let ancestors = ancestor_folder_prefixes path in
    first_with_grants db.objects (folder_grants_for_prefixes db now company_id bucket ancestors)
      (reverse ancestors)

abbrev pub is_company_subject : SubjectType → Bool
is_company_subject SubjectType.company = true
is_company_subject _ = false

-- A grant that denies reading to the whole company.
unfoldable pub is_company_deny : ℕ → StorageAccessGrant → Bool
is_company_deny company_id g =
    not (is_allow g.effect)
    && is_company_subject g.subject_type
    && deny_blocks g.permission Permission.read
    && text_eq g.subject_id (str company_id)

unfoldable pub nearest_private_ancestor_folder : Db → ℕ → ℕ → Text → Text → Option Text
nearest_private_ancestor_folder db now company_id bucket path =
    let ancestors = ancestor_folder_prefixes path in
    let grants =
      keep (is_company_deny company_id)
        (folder_grants_for_prefixes db now company_id bucket ancestors) in
    find (λ prefix. any (λ g. text_eq (granted_folder db.objects g.object_id) prefix) grants)
      (reverse ancestors)

-- `assert_can_open_to_company`: false where it raises `parent_folder_private`. An empty prefix is
-- falsy in `if not parent`.
abbrev pub no_parent : Option Text → Bool
no_parent none = true
no_parent (some parent) = is_empty parent

unfoldable pub can_open_to_company : Db → ℕ → ℕ → Text → Text → Bool
unfolding nearest_private_ancestor_folder
can_open_to_company db now company_id bucket path =
    no_parent (nearest_private_ancestor_folder db now company_id bucket path)
