-- ===== src/Storage/Tests/Defaults.antt =====
-- Tests of the private default of new files.
use storage_service.Prelude.{ℕ, ◌+◌, ◌≡◌, refl, false, true, none, some, [], ◌∷◌, All, arith}
use storage_service.Text.{codes}
use storage_service.Text.Decimal.{str}
use storage_service.Storage.Models.{
  ResourceType, SubjectType, Permission, Effect, StorageAccessGrant, Db,
}
use storage_service.Storage.Access.{
  evaluate_access, object_name, is_active_grant, active_grants, grant_applies, matching_grants,
  resource_type_matches, grant_specificity, resource_matches_grant, subject_matches,
}
use storage_service.Storage.Paths.{normalize_path}
use storage_service.Storage.Inherited.{
  bucket_name, folder_grants_for_prefixes, nearest_ancestor_folder_grants,
}
use storage_service.Storage.Defaults.{resource_grants_exist, ensure_default_private_access}
use storage_service.Storage.Defaults.Private.{Below, private_by_default}
use storage_service.Storage.Tests.{office, report, employee, hr_grant, tables}

-- The company may write in the bucket.
abbrev bucket_grant : StorageAccessGrant
bucket_grant = record (hr_grant 1 SubjectType.company 7 Permission.write Effect.allow) {
  object_id = none;
  resource_type = ResourceType.bucket;
}

abbrev db : Db
db = tables (bucket_grant ∷ []) []

abbrev fresh : ℕ → ℕ
fresh n = n + 20

covered :
    resource_type_matches db.objects ResourceType.object
      (some 10)
      (normalize_path (some report.name))
      (some 10)
    ≡ true
covered = refl

ungranted : resource_grants_exist db 100 report ResourceType.object ≡ false
unfolding resource_grants_exist active_grants is_active_grant
ungranted = refl

no_folder :
    nearest_ancestor_folder_grants db 100 7 (bucket_name db.buckets 1) (codes "hr/report.txt")
    ≡ none
unfolding nearest_ancestor_folder_grants folder_grants_for_prefixes active_grants bucket_name
    is_active_grant
no_folder = refl

below :
    All
      (Below db 100 5 report ResourceType.object office
        (some report.name)
        (some 10)
        (employee 6)
        6
        refl
        refl
        covered
        refl
        refl)
      (matching_grants db 100 (employee 6) office (some report.name) (some 10))
unfolding grant_specificity matching_grants active_grants is_active_grant grant_applies
    resource_matches_grant subject_matches object_name str
below = (omega arith, tt)

private_by_default_example :
    evaluate_access
      (ensure_default_private_access fresh db 100 (some 5) report ResourceType.object)
      100
      (employee 6)
      office
      (some report.name)
      (some 10)
      false
      false
    ≡ false
private_by_default_example =
    private_by_default db 100 5 report ResourceType.object office (some report.name) (some 10)
      (employee 6) 6 refl refl covered refl refl fresh false false refl refl ungranted no_folder
      below
