-- ===== src/Storage/Tests/Objects.antt =====
-- Tests of apps/storage/services.py.
use storage_service.Prelude.{
  ℕ, ◌+◌, ◌≡◌, refl, true, false, [], ◌∷◌, none, some, arith, map, Bool, ◌⊎◌, inl, inr, subst, find,
  keep, ◌==◌,
}
use storage_service.Prelude.Outcome.{ok, raised}
use storage_service.Text.{Text, codes}
use storage_service.Storage.Models.{StorageObject, Db}
use storage_service.Storage.Errors.{storage_error}
use storage_service.Storage.Paths
use storage_service.Storage.Paths.{safe_object_path}
use storage_service.Storage.Quotas.{
  get_or_create_company_quota, resolve_user_limit, apply_usage_delta, apply_user_delta,
}
use storage_service.Storage.Objects.{Platform, upload_object, delete_object}
use storage_service.Storage.Objects.Balance.{Balanced, delete_object-Balanced}
use storage_service.Storage.Objects.Stores.{Keyed}
use storage_service.Storage.Objects.Uploads.{upload_object-Balanced}
use storage_service.Storage.Resolve.{object_named, assert_can_access_path}
use storage_service.Storage.Access.{
  evaluate_access, is_member, active_grants, matching_grants, kind_default_allows, decide_top,
  allow_loop, top_grants,
}
use storage_service.Storage.Quotas.Counters.{company_row}
use storage_service.Storage.Mime.{mime_allowed, normalize_mime_type}
use storage_service.Storage.Folders.{move_object, copy_object, delete_paths}
use storage_service.Storage.Folders.Rename.{rename_folder}
use storage_service.Storage.Folders.Moves.{Moved, move_object-Moved}
use storage_service.Storage.Folders.Copies.{copy_object-Balanced}
use storage_service.Storage.Tests.{office, report, hr_marker, employee, tables}

-- A blob store that never fails.
abbrev pub platform : Platform
platform = record {
  quota_settings = record { default_company_quota_bytes = 1000; default_user_quota_bytes = 0 };
  max_upload_bytes = 50;
  save_blob = λ key bytes. none;
  delete_storage_key = λ key. none;
  open_blob = λ key. 1 ∷ 2 ∷ [];
  build_storage_key = λ company bucket name id. name;
  content_etag = λ bytes. bytes;
  lower = λ s. s;
  guess_mime_type = λ name. codes "text/plain";
}

abbrev db : Db
db = tables [] []

abbrev fresh : ℕ → ℕ
fresh n = n + 20

db-Balanced : Balanced platform 7 db
unfolding get_or_create_company_quota
db-Balanced = refl

delete_object-Balanced_example : Balanced platform 7 (delete_object platform report db).1
delete_object-Balanced_example = delete_object-Balanced platform 7 report db refl db-Balanced

found_of_two :
    (p : StorageObject → Bool) (x y o : StorageObject)
    → find p (x ∷ y ∷ []) ≡ some o
    → (x ≡ o) ⊎ (y ≡ o)
found_of_two p x y o e = ground (arith, e)

db-Keyed : Keyed platform office db
db-Keyed name o e = elim (found_of_two (object_named office.id name) hr_marker report o e) [
  | inl first ↦
      subst (λ x. (keep (λ y. y.id == x.id) db.objects ≡ x ∷ []) × (x.company_id ≡ 7)) first
        (refl, refl)
  | inr second ↦
      subst (λ x. (keep (λ y. y.id == x.id) db.objects ≡ x ∷ []) × (x.company_id ≡ 7)) second
        (refl, refl)
]

upload_object-Balanced_example :
    Balanced platform 7
      (upload_object platform fresh 100 office
        (codes "hr/report.txt")
        (1 ∷ 2 ∷ 3 ∷ [])
        (some 5)
        none
        true
        []
        none
        db).1
upload_object-Balanced_example =
    upload_object-Balanced platform office fresh 100 (codes "hr/report.txt") (1 ∷ 2 ∷ 3 ∷ [])
      (some 5) none true [] none db db-Keyed db-Balanced

abbrev old_report : StorageObject
old_report = record report { name = codes "old.txt" }

moves :
    move_object office (codes "hr/report.txt") office (codes "old.txt") db
    ≡ (ok old_report, record db { objects = hr_marker ∷ old_report ∷ [] })
unfolding move_object safe_object_path
moves = refl

move_object-Moved_example :
    (source_name : Text) × (dest_name : Text) × (safe_object_path (codes "hr/report.txt")
      ≡ Paths.ok source_name)
    × (safe_object_path (codes "old.txt") ≡ Paths.ok dest_name)
    × Moved office office source_name dest_name db old_report
        (record db { objects = hr_marker ∷ old_report ∷ [] })
move_object-Moved_example =
    move_object-Moved office (codes "hr/report.txt") office (codes "old.txt") db
      (record db { objects = hr_marker ∷ old_report ∷ [] }) old_report moves

copy_object-Balanced_example :
    Balanced platform 7
      (copy_object platform fresh 100 office
        (codes "hr/report.txt")
        office
        (codes "copy.txt")
        (some 5)
        db).1
copy_object-Balanced_example =
    copy_object-Balanced platform fresh 100 office (codes "hr/report.txt") office (codes "copy.txt")
      (some 5) db db-Balanced

-- What the folder `hr` holds after it has been renamed.
renamed :
    map
      (λ (o : StorageObject). o.name)
      (rename_folder (λ objs. objs) office (codes "hr") (codes "people") db).1.objects
    ≡ codes "people/.emptyFolderPlaceholder" ∷ codes "people/report.txt" ∷ []
unfolding rename_folder safe_object_path
renamed = refl

-- A name that is taken is refused without `upsert`.
uploaded_twice :
    (upload_object platform fresh 100 office
      (codes "hr/report.txt")
      (1 ∷ 2 ∷ 3 ∷ [])
      (some 5)
      none
      false
      []
      none
      db).0
    ≡ raised (storage_error 400 (codes "resource_already_exists"))
unfolding upload_object safe_object_path mime_allowed normalize_mime_type
uploaded_twice = refl

-- A path that is listed twice is charged twice: 30 bytes stay stored, and none are counted.
abbrev notes : StorageObject
notes = record report { id = 11; name = codes "notes.txt"; size = 30 }

abbrev two_files : Db
two_files = record db {
  objects = notes ∷ report ∷ [];
  company_quotas =
      record { company_id = 7; max_bytes = 100; used_bytes = 70; max_bytes_per_user = none } ∷ [];
}

listed_twice :
    let after =
      (delete_paths platform 100 office
        (codes "hr/report.txt" ∷ codes "hr/report.txt" ∷ [])
        (employee 5)
        two_files).1 in
    (after.objects ≡ notes ∷ []) × ((company_row platform.quota_settings 7 after).used_bytes ≡ 0)
unfolding delete_paths delete_object safe_object_path assert_can_access_path evaluate_access
    is_member active_grants matching_grants kind_default_allows decide_top allow_loop top_grants
    apply_usage_delta apply_user_delta get_or_create_company_quota resolve_user_limit
listed_twice = (refl, refl)
