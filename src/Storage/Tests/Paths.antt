-- ===== src/Storage/Tests/Paths.antt =====
-- Tests of the paths of apps/storage/models.py, apps/storage/access.py and apps/storage/mime.py.
use storage_service.Prelude.{◌≡◌, refl, true, false, [], ◌∷◌, some, ◌⊎◌, ◌↔◌, All}
use storage_service.Text.{codes}
use storage_service.Text.Split.{split}
use storage_service.Storage.Paths.{
  ok, normalize_path, folder_matches, folder_path_from_placeholder, folder_placeholder_path,
  safe_object_path, ancestor_folder_prefixes,
}
use storage_service.Storage.Paths.Markers.{folder_path-placeholder_path}
use storage_service.Storage.Paths.Folders.{Within, folder_matches_iff}
use storage_service.Storage.Paths.Safe.{SafeSegment, safe_object_path-Safe}

folder_matches-sibling : folder_matches (codes "hr") (codes "hr2/x") ≡ false
folder_matches-sibling = refl

safe_object_path-messy : safe_object_path (codes "/a//b\\c.txt") ≡ ok (codes "a/b/c.txt")
unfolding safe_object_path
safe_object_path-messy = refl

ancestor_folder_prefixes-file :
    ancestor_folder_prefixes (codes "/a/b/c.txt") ≡ codes "a" ∷ codes "a/b" ∷ []
ancestor_folder_prefixes-file = refl

safe_object_path-Safe_example :
    All SafeSegment (split (codes "a/b/c.txt"))
    × (safe_object_path (codes "a/b/c.txt") ≡ ok (codes "a/b/c.txt"))
safe_object_path-Safe_example =
    safe_object_path-Safe (codes "/a//b\\c.txt") (codes "a/b/c.txt") safe_object_path-messy

folder_matches_iff_example : (folder_matches (codes "/hr/") (codes "hr/pay/may") ≡ true) ↔ (
    (normalize_path (some (codes "/hr/")) ≡ [])
    ⊎ Within (normalize_path (some (codes "/hr/"))) (normalize_path (some (codes "hr/pay/may"))))
folder_matches_iff_example = folder_matches_iff (codes "/hr/") (codes "hr/pay/may")

folder_path-placeholder_path_example :
    folder_path_from_placeholder (folder_placeholder_path (codes " hr/pay/")) ≡ codes "hr/pay"
folder_path-placeholder_path_example = folder_path-placeholder_path (codes " hr/pay/") refl
