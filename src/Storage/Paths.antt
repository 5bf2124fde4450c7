-- ===== src/Storage/Paths.antt =====
-- Object and folder paths: the folder markers of apps/storage/models.py, the prefix tests of
-- apps/storage/access.py and `safe_object_path` of apps/storage/mime.py.
pub mod Markers
pub mod Folders
pub mod Safe
use storage_service.Prelude.{
  ℕ, zero, suc, ◌-◌, Bool, true, false, not, ◌||◌, ◌&&◌, List, [], ◌∷◌, ◌++◌, map, Option, none,
  some, ◌==◌, if◌then◌else◌, length, take, keep, any, range_from, is_some,
}
use storage_service.Text.{Text, codes, text_eq, is_empty, slash}
use storage_service.Text.Trim.{strip, strip_slashes}
use storage_service.Text.Affix.{starts_with, remove_suffix}
use storage_service.Text.Split.{split, join}

-- `value or ''`.
abbrev pub or_empty : Option Text → Text
or_empty none = []
or_empty (some s) = s

-- `access._normalize_path`.
abbrev pub normalize_path : Option Text → Text
normalize_path path = strip_slashes (strip (or_empty path))

-- `FOLDER_PLACEHOLDER_NAME`.
abbrev pub folder_placeholder_name : Text
folder_placeholder_name = codes ".emptyFolderPlaceholder"

abbrev pub folder_placeholder_path : Text → Text
folder_placeholder_path folder_path =
    let folder = normalize_path (some folder_path) in
    if is_empty folder then folder_placeholder_name else folder ++ slash ∷ folder_placeholder_name

-- `name[: -len(suffix)]` if the name ends with the suffix, else the name.
abbrev pub or_whole : Text → Option Text → Text
or_whole name none = name
or_whole name (some start) = start

abbrev pub folder_path_from_placeholder : Text → Text
folder_path_from_placeholder object_name =
    let name = normalize_path (some object_name) in
    if text_eq name folder_placeholder_name
    then []
    else or_whole name (remove_suffix (slash ∷ folder_placeholder_name) name)

-- `access._folder_matches`.
abbrev pub folder_matches : Text → Text → Bool
folder_matches prefix path =
    let prefix' = normalize_path (some prefix) in
    let path' = normalize_path (some path) in
    if is_empty prefix'
    then true
    else text_eq path' prefix' || starts_with path' (prefix' ++ slash ∷ [])

-- `access._ancestor_folder_prefixes`.
abbrev pub has_slash : Text → Bool
has_slash = any (λ c. c == slash)

abbrev pub prefixes_of : List Text → List Text
prefixes_of parts = map (λ i. join (take i parts)) (range_from 1 (length parts - 1))

abbrev pub ancestor_folder_prefixes : Text → List Text
ancestor_folder_prefixes path =
    let path' = normalize_path (some path) in
    if is_empty path' || not (has_slash path') then [] else prefixes_of (split path')

-- The two messages of the `ValueError` that `safe_object_path` raises.
pub data PathError : Type 0 where
  empty_path parent_segment : PathError

pub data PathResult : Type 0 where
  ok : Text → PathResult
  err : PathError → PathResult

-- `raw.replace('\\', '/')`.
abbrev pub forward_slashes : Text → Text
forward_slashes = map (λ c. if c == b'\\' then slash else c)

abbrev pub parent_dir : Text
parent_dir = codes ".."

-- `PurePosixPath(raw).parts` for a path that does not begin with a slash: empty and `.` segments
-- are dropped. The loop's own test on `('', '.')` drops nothing more.
abbrev pub is_blank : Text → Bool
is_blank part = is_empty part || text_eq part (codes ".")

abbrev pub path_parts : Text → List Text
path_parts raw = keep (λ part. not (is_blank part)) (split raw)

-- The loop over the parts: `none` where it raises.
abbrev pub collect_parts : List Text → Option (List Text)
collect_parts [] = some []
collect_parts (part ∷ rest) =
    let later = collect_parts rest in
    if is_blank part
    then later
    else if text_eq part parent_dir
    then none
    else elim later [ none ↦ none | some parts ↦ some (part ∷ parts) ]

abbrev pub joined : Option (List Text) → PathResult
joined none = err parent_segment
joined (some []) = err empty_path
joined (some (part ∷ parts)) = ok (join (part ∷ parts))

unfoldable pub safe_object_path : Text → PathResult
safe_object_path path =
    let raw = strip_slashes (forward_slashes path) in
    if is_empty raw then err empty_path else joined (collect_parts (path_parts raw))
