-- ===== src/Storage/Access.antt =====
-- Access control: apps/storage/access.py from `_permission_at_least` to `can_access_path`.
-- `grant.object` is read through the table of objects, so a renamed object changes what its
-- grants match. `timezone.now()` is the argument `now`.
pub mod Ranking
pub mod Decision
pub mod Spec
pub mod Laws
use storage_service.Prelude.{
  ℕ, ◌+◌, Bool, true, false, not, ◌||◌, ◌&&◌, List, [], ◌∷◌, map, Option, none, some, ◌==◌, leb,
  ltb, if◌then◌else◌, length, keep, any, find,
}
use storage_service.Text.{Text, text_eq, is_empty}
use storage_service.Text.Split.{split}
use storage_service.Text.Decimal.{str}
use storage_service.Storage.Models.{
  Bucket, BucketKind, StorageObject, SubjectType, ResourceType, Permission, Effect,
  StorageAccessGrant, StoragePrincipal, Db, read, write, admin,
}
use storage_service.Storage.Paths.{normalize_path, folder_path_from_placeholder, folder_matches}

-- `_PERMISSION_RANK`.
abbrev pub permission_rank : Permission → ℕ
permission_rank read = 0
permission_rank write = 1
permission_rank admin = 2

abbrev pub permission_at_least : Permission → Permission → Bool
permission_at_least granted required = leb (permission_rank required) (permission_rank granted)

abbrev pub deny_blocks : Permission → Permission → Bool
deny_blocks denied required = leb (permission_rank denied) (permission_rank required)

-- `_required_permission(write=..., admin=...)`.
abbrev pub required_permission : Bool → Bool → Permission
required_permission for_write for_admin =
    if for_admin then admin else if for_write then write else read

abbrev pub is_allow : Effect → Bool
is_allow Effect.allow = true
is_allow Effect.deny = false

-- `grant.object.name`; a foreign key always finds its row.
abbrev pub name_or_empty : Option StorageObject → Text
name_or_empty none = []
name_or_empty (some obj) = obj.name

unfoldable pub object_name : List StorageObject → ℕ → Text
object_name objects id = name_or_empty (find (λ obj. obj.id == id) objects)

-- `object_id and str(grant.object_id) == str(object_id)`.
abbrev pub same_object : ℕ → Option ℕ → Bool
same_object target none = false
same_object target (some id) = target == id

-- The part of `_resource_matches_grant` behind the test on the bucket. `path` is normalised, so
-- it is never `None` here.
abbrev pub resource_type_matches :
    List StorageObject → ResourceType → Option ℕ → Text → Option ℕ → Bool
resource_type_matches objects ResourceType.bucket target path object_id = true
resource_type_matches objects ResourceType.folder none path object_id = false
resource_type_matches objects ResourceType.folder (some target) path object_id =
    folder_matches (folder_path_from_placeholder (object_name objects target)) path
resource_type_matches objects ResourceType.object none path object_id = false
resource_type_matches objects ResourceType.object (some target) path object_id =
    same_object target object_id
    || (not (is_empty path) && text_eq (normalize_path (some (object_name objects target))) path)

unfoldable pub resource_matches_grant :
    List StorageObject → StorageAccessGrant → Bucket → Option Text → Option ℕ → Bool
resource_matches_grant objects grant bucket path object_id =
    if not (grant.bucket_id == bucket.id)
    then false
    else resource_type_matches objects grant.resource_type grant.object_id (normalize_path path)
        object_id

abbrev pub subject_type_matches : SubjectType → Text → ℕ → ℕ → Bool
subject_type_matches SubjectType.user subject user_id company_id = text_eq subject (str user_id)
subject_type_matches SubjectType.company subject user_id company_id =
    text_eq subject (str company_id)
subject_type_matches SubjectType.group subject user_id company_id = false

unfoldable pub subject_matches : StorageAccessGrant → StoragePrincipal → Bool
subject_matches grant principal = elim principal.user_id [
  | none ↦ false
  | some user_id ↦ elim principal.company_id [
    | none ↦ false
    | some company_id ↦ subject_type_matches grant.subject_type grant.subject_id user_id company_id
  ]
]

-- `_active_grants_qs`: the grants of a company that have no expiry or expire after `now`.
abbrev pub not_expired : ℕ → Option ℕ → Bool
not_expired now none = true
not_expired now (some expires_at) = ltb now expires_at

unfoldable pub is_active_grant : ℕ → ℕ → StorageAccessGrant → Bool
is_active_grant now company_id g = (g.company_id == company_id) && not_expired now g.expires_at

unfoldable pub active_grants : Db → ℕ → ℕ → List StorageAccessGrant
active_grants db now company_id = keep (is_active_grant now company_id) db.grants

abbrev pub is_admin_permission : Permission → Bool
is_admin_permission admin = true
is_admin_permission _ = false

abbrev pub is_read_permission : Permission → Bool
is_read_permission read = true
is_read_permission _ = false

-- The defaults of each kind of bucket, for a member of its company.
abbrev pub kind_default : BucketKind → StoragePrincipal → Permission → Bool
kind_default BucketKind.company principal required =
    if is_admin_permission required then principal.is_company_owner || principal.is_staff else true
kind_default BucketKind.connector principal required = is_read_permission required

-- `company_id is None or user_id is None`, and the bucket is of another company.
unfoldable pub is_member : StoragePrincipal → Bucket → Bool
is_member principal bucket = elim principal.company_id [
  | none ↦ false
  | some company_id ↦ elim principal.user_id [
    | none ↦ false
    | some user_id ↦ bucket.company_id == company_id
  ]
]

unfoldable pub kind_default_allows : StoragePrincipal → Bucket → Permission → Bool
kind_default_allows principal bucket required =
    if not (is_member principal bucket) then false else kind_default bucket.kind principal required

-- `_grant_specificity`: how specific the resource is, then the subject.
abbrev pub subject_score : SubjectType → ℕ
subject_score SubjectType.user = 3
subject_score SubjectType.group = 2
subject_score SubjectType.company = 1

abbrev pub folder_depth : Text → ℕ
folder_depth folder_path =
    if is_empty folder_path then 0 else length (split (normalize_path (some folder_path)))

abbrev pub grant_folder : List StorageObject → Option ℕ → Text
grant_folder objects none = []
grant_folder objects (some target) = folder_path_from_placeholder (object_name objects target)

abbrev pub resource_score : List StorageObject → ResourceType → Option ℕ → ℕ
resource_score objects ResourceType.object target = 1000
resource_score objects ResourceType.folder target = 100 + folder_depth (grant_folder objects target)
resource_score objects ResourceType.bucket target = 1

unfoldable pub grant_specificity : List StorageObject → StorageAccessGrant → ℕ × ℕ
grant_specificity objects grant =
    (resource_score objects grant.resource_type grant.object_id, subject_score grant.subject_type)

-- Python's order and equality on pairs, and its `max`, which keeps the first of equals.
unfoldable pub pair_lt : ℕ × ℕ → ℕ × ℕ → Bool
pair_lt (a, b) (c, d) = ltb a c || ((a == c) && ltb b d)

unfoldable pub pair_eq : ℕ × ℕ → ℕ × ℕ → Bool
pair_eq (a, b) (c, d) = (a == c) && (b == d)

unfoldable pub higher : ℕ × ℕ → ℕ × ℕ → ℕ × ℕ
higher best s = if pair_lt best s then s else best

unfoldable pub max_from : ℕ × ℕ → List (ℕ × ℕ) → ℕ × ℕ
max_from best [] = best
max_from best (s ∷ rest) = max_from (higher best s) rest

-- The loop that looks for an allow at the top specificity. `none`: nothing allows or refuses.
unfoldable pub allow_loop : Permission → Bool → List StorageAccessGrant → Option Bool
allow_loop required saw_allow [] = if saw_allow then some false else none
allow_loop required saw_allow (g ∷ rest) =
    let skip = allow_loop required saw_allow rest in
    let seen = allow_loop required true rest in
    if not (is_allow g.effect)
    then skip
    else if permission_at_least g.permission required
    then some true
    else seen

abbrev pub denies : Permission → StorageAccessGrant → Bool
denies required g = not (is_allow g.effect) && deny_blocks g.permission required

unfoldable pub decide_top : Permission → List StorageAccessGrant → Option Bool
decide_top required top =
    if any (denies required) top then some false else allow_loop required false top

-- The grants of the highest specificity among those that match.
unfoldable pub top_grants : List StorageObject → List StorageAccessGrant → List StorageAccessGrant
top_grants objects [] = []
top_grants objects (g ∷ rest) =
    let best = max_from (grant_specificity objects g) (map (grant_specificity objects) rest) in
    keep (λ h. pair_eq (grant_specificity objects h) best) (g ∷ rest)

unfoldable pub grant_applies :
    Db → StoragePrincipal → Bucket → Option Text → Option ℕ → StorageAccessGrant → Bool
unfolding subject_matches resource_matches_grant
grant_applies db principal bucket path object_id g =
    subject_matches g principal && resource_matches_grant db.objects g bucket path object_id

unfoldable pub matching_grants :
    Db → ℕ → StoragePrincipal → Bucket → Option Text → Option ℕ → List StorageAccessGrant
matching_grants db now principal bucket path object_id =
    keep (grant_applies db principal bucket path object_id) (active_grants db now bucket.company_id)

abbrev pub or_default : Option Bool → Bool → Bool
or_default none default = default
or_default (some decision) default = decision

unfoldable pub evaluate_access :
    Db → ℕ → StoragePrincipal → Bucket → Option Text → Option ℕ → Bool → Bool → Bool
evaluate_access db now principal bucket path object_id for_write for_admin =
    let required = required_permission for_write for_admin in
    let grants = matching_grants db now principal bucket path object_id in
    if not (is_member principal bucket)
    then false
    else or_default (decide_top required (top_grants db.objects grants))
        (kind_default_allows principal bucket required)

abbrev pub can_access_bucket : Db → ℕ → StoragePrincipal → Bucket → Bool → Bool → Bool
can_access_bucket db now principal bucket for_write for_admin =
    evaluate_access db now principal bucket none none for_write for_admin

abbrev pub can_access_path :
    Db → ℕ → StoragePrincipal → Bucket → Text → Option ℕ → Bool → Bool → Bool
can_access_path db now principal bucket path object_id for_write for_admin =
    evaluate_access db now principal bucket (some path) object_id for_write for_admin
