-- ===== src/Storage/Listing.antt =====
-- apps/storage/services.py: `list_objects` and `resolve_item_by_id`. `before` is the order that the
-- request asks for, of two entries; a sort is stable. `contains` is the test of `name__icontains`,
-- and `parse_uuid` is Python's. The access summary of an entry and the columns of a file are left out.
pub mod Readable
use storage_service.Prelude.{
  ℕ, ◌-◌, ◌+◌, Bool, true, false, not, ◌&&◌, ◌||◌, List, [], ◌∷◌, ◌++◌, map, Option, none, some,
  ◌==◌, leb, if◌then◌else◌, keep, any, find, take, drop, length,
}
use storage_service.Prelude.Outcome.{ok, pure, fail, gets, check, ◌>>=◌, ◌>>◌}
use storage_service.Text.{Text, codes, text_eq, is_empty, slash}
use storage_service.Text.Trim.{strip_slashes, strip}
use storage_service.Text.Affix.{remove_prefix}
use storage_service.Text.Split.{split}
use storage_service.Storage.Models.{Bucket, BucketKind, StorageObject, StoragePrincipal, Db}
use storage_service.Storage.Paths.{folder_placeholder_name}
use storage_service.Storage.Access.{can_access_path}
use storage_service.Storage.Errors.{Call, storage_error}
use storage_service.Storage.Resolve.{or_not_found}
use storage_service.Storage.Folders.{prefix_filter, in_bucket, is_placeholder, readable}

-- `rest.split('/', 1)`, where there is a slash.
abbrev pub cons_first : ℕ → Option (Text × Text) → Option (Text × Text)
cons_first c none = none
cons_first c (some (first, rest)) = some (c ∷ first, rest)

abbrev pub split_once : Text → Option (Text × Text)
split_once [] = none
split_once (c ∷ s) =
    let later = split_once s in if c == slash then some ([], s) else cons_first c later

-- An entry of the listing: a folder, with the object of its marker, or a file.
pub data Entry : Type 0 where
  folder : Text → Option ℕ → Entry
  file : StorageObject → Entry

-- What the loop has found.
pub record Found : Type 0 where
  pub folders : List (Text × Option ℕ)
  pub files : List StorageObject

abbrev pub nothing_found : Found
nothing_found = record { folders = []; files = [] }

abbrev pub marker_id : Text → ℕ → Option ℕ → Option ℕ
marker_id remainder id old = if text_eq remainder folder_placeholder_name then some id else old

-- `folders.add(folder_name)`, and the marker of the folder.
abbrev pub add_folder : Text → Text → ℕ → List (Text × Option ℕ) → List (Text × Option ℕ)
add_folder name remainder id [] = (name, marker_id remainder id none) ∷ []
add_folder name remainder id (entry ∷ entries) =
    let later = add_folder name remainder id entries in
    if text_eq entry.0 name
    then (entry.0, marker_id remainder id entry.1) ∷ entries
    else entry ∷ later

abbrev pub found_child : StorageObject → Option (Text × Text) → Found → Found
found_child obj none found = record found { files = found.files ++ obj ∷ [] }
found_child obj (some (name, remainder)) found = record found {
  folders = add_folder name remainder obj.id found.folders;
}

-- `obj.name[len(prefix):]`, if the name starts with the prefix.
abbrev pub found_rest : StorageObject → Option Text → Found → Found
found_rest obj none found = found
found_rest obj (some []) found = found
found_rest obj (some (c ∷ rest)) found = found_child obj (split_once (c ∷ rest)) found

abbrev pub collect : Text → List StorageObject → Found → Found
collect prefix [] found = found
collect prefix (obj ∷ objs) found =
    collect prefix objs (found_rest obj (remove_prefix prefix obj.name) found)

-- A stable sort.
abbrev pub insert_entry : (Entry → Entry → Bool) → Entry → List Entry → List Entry
insert_entry before entry [] = entry ∷ []
insert_entry before entry (other ∷ entries) =
    let later = insert_entry before entry entries in
    if before other entry then other ∷ later else entry ∷ other ∷ entries

abbrev pub sort_entries : (Entry → Entry → Bool) → List Entry → List Entry
sort_entries before [] = []
sort_entries before (entry ∷ entries) = insert_entry before entry (sort_entries before entries)

abbrev pub folder_entry : Text × Option ℕ → Entry
folder_entry f = folder f.0 f.1

-- The objects of the query that the principal may read; no principal reads them all.
abbrev pub listed : Db → ℕ → Option StoragePrincipal → Bucket → (Text → Bool) → List StorageObject
listed db now principal bucket contains =
    keep (λ o. in_bucket bucket o && contains o.name && readable db now principal bucket o)
      db.objects

unfoldable pub list_objects :
    Db
    → ℕ
    → Option StoragePrincipal
    → Bucket
    → Text
    → ℕ
    → ℕ
    → (Text → Bool)
    → (Entry → Entry → Bool)
    → List Entry
list_objects db now principal bucket prefix limit offset contains before =
    let found =
      collect (prefix_filter prefix) (listed db now principal bucket contains) nothing_found in
    take limit (
      drop offset (
        sort_entries before (map folder_entry found.folders)
        ++ sort_entries before (map file found.files)))

-- The answer of `resolve_item_by_id`.
pub record Item : Type 0 where
  pub id : ℕ
  pub bucket : Text
  pub path : Text
  pub name : Text
  pub is_folder : Bool

-- `name.rsplit('/', 1)[-1]`.
abbrev pub last_part : List Text → Text
last_part [] = []
last_part (part ∷ []) = part
last_part (part ∷ next ∷ parts) = last_part (next ∷ parts)

abbrev pub or_connector : Text → Text
or_connector provider =
    let name = strip (if is_empty provider then codes "connector" else provider) in
    if is_empty name then codes "connector" else name

abbrev pub display_name_for_bucket : Bucket → Text
display_name_for_bucket bucket = elim bucket.kind [
  | BucketKind.company ↦ codes "Company files"
  | BucketKind.connector ↦ or_connector bucket.connector_provider ++ codes " files"
]

abbrev pub marker_folder : Text → Text
marker_folder name =
    if text_eq name folder_placeholder_name
    then []
    else take (length name - (length folder_placeholder_name + 1)) name

abbrev pub item_of : Bucket → StorageObject → Item
item_of bucket obj =
    if is_placeholder obj.name
    then record {
      id = obj.id;
      bucket = bucket.name;
      path = marker_folder obj.name;
      name =
          if is_empty (marker_folder obj.name)
          then display_name_for_bucket bucket
          else last_part (split (marker_folder obj.name));
      is_folder = true;
    }
    else record {
      id = obj.id;
      bucket = bucket.name;
      path = obj.name;
      name = last_part (split obj.name);
      is_folder = false;
    }

abbrev pub other_company : Option ℕ → ℕ → Bool
other_company none company_id = false
other_company (some mine) company_id = not (company_id == mine)

abbrev pub parsed_id : Option ℕ → Call ℕ
parsed_id none = fail (storage_error 400 (codes "invalid_id"))
parsed_id (some id) = pure id

unfoldable pub resolve_item_by_id : (Text → Option ℕ) → ℕ → StoragePrincipal → Text → Call Item
resolve_item_by_id parse_uuid now principal object_id = do
  id ← parsed_id (parse_uuid object_id)
  found ← gets (λ db. find (λ o. o.id == id) db.objects)
  obj ← or_not_found (codes "object_not_found") found
  check (not (other_company principal.company_id obj.company_id))
      (storage_error 404 (codes "object_not_found")) tt
  buckets ← gets (λ db. find (λ b. b.id == obj.bucket_id) db.buckets)
  bucket ← or_not_found (codes "object_not_found") buckets
  allowed ← gets (λ db. can_access_path db now principal bucket obj.name (some obj.id) false false)
  check allowed (storage_error 403 (codes "path_access_denied")) tt
  pure (item_of bucket obj)
