-- ===== src/Storage/Tests/Access.antt =====
-- Tests of apps/storage/access.py.
use mathlib.Core.List.{Perm}
use mathlib.Core.List.Perm
use storage_service.Prelude.{◌≡◌, ◌≢◌, refl, true, false, ◌&&◌, List, [], ◌∷◌, none, some, arith}
use storage_service.Text.Decimal.{str}
use storage_service.Storage.Models.{SubjectType, Permission, Effect, StorageAccessGrant, Db}
use storage_service.Storage.Access.{
  evaluate_access, is_member, required_permission, is_active_grant, active_grants, grant_applies,
  matching_grants, subject_matches, resource_matches_grant, object_name, kind_default_allows,
  grant_specificity, pair_lt, pair_eq, higher, max_from, allow_loop, decide_top, top_grants,
}
use storage_service.Storage.Access.Spec.{decision, evaluate_access-decision, evaluate_access-perm}
use storage_service.Storage.Access.Laws.{evaluate_access_tenant, evaluate_access-Weaker}
use storage_service.Storage.Tests.{office, report, employee, hr_grant, tables}

-- The company is denied the folder `hr`; user 6 may write in it.
abbrev rules : List StorageAccessGrant
rules =
    hr_grant 1 SubjectType.company 7 Permission.read Effect.deny
    ∷ hr_grant 2 SubjectType.user 6 Permission.write Effect.allow
    ∷ []

abbrev db : Db
db = tables rules []

writer_may_write :
    evaluate_access db 100 (employee 6) office (some report.name) (some 10) true false ≡ true
unfolding evaluate_access is_member is_active_grant active_grants grant_applies matching_grants
    subject_matches resource_matches_grant object_name kind_default_allows grant_specificity pair_lt
    pair_eq higher max_from allow_loop decide_top top_grants str
writer_may_write = refl

colleague_may_not_read :
    evaluate_access db 100 (employee 8) office (some report.name) (some 10) false false ≡ false
unfolding evaluate_access is_member is_active_grant active_grants grant_applies matching_grants
    subject_matches resource_matches_grant object_name kind_default_allows grant_specificity pair_lt
    pair_eq higher max_from allow_loop decide_top top_grants str
colleague_may_not_read = refl

evaluate_access-decision_example :
    evaluate_access db 100 (employee 6) office (some report.name) (some 10) true false ≡ (
      is_member (employee 6) office
      && decision db 100
          (employee 6)
          office
          (some report.name)
          (some 10)
          (required_permission true false))
evaluate_access-decision_example =
    evaluate_access-decision db 100 (employee 6) office (some report.name) (some 10) true false

evaluate_access_tenant_example :
    ((employee 6).company_id ≡ some office.company_id) × ((employee 6).user_id ≢ none)
evaluate_access_tenant_example =
    evaluate_access_tenant db 100 (employee 6) office (some report.name) (some 10) true false
      writer_may_write

evaluate_access-Weaker_example :
    evaluate_access db 100 (employee 6) office (some report.name) (some 10) false false ≡ true
evaluate_access-Weaker_example =
    evaluate_access-Weaker db 100 (employee 6) office (some report.name) (some 10) true false false
      false (omega arith) writer_may_write

rules-perm : Perm rules (
    hr_grant 2 SubjectType.user 6 Permission.write Effect.allow
    ∷ hr_grant 1 SubjectType.company 7 Permission.read Effect.deny
    ∷ [])
rules-perm =
    Perm.swap (hr_grant 2 SubjectType.user 6 Permission.write Effect.allow)
      (hr_grant 1 SubjectType.company 7 Permission.read Effect.deny) []

evaluate_access-perm_example :
    evaluate_access db 100 (employee 6) office (some report.name) (some 10) true false
    ≡ evaluate_access
        (tables
          (hr_grant 2 SubjectType.user 6 Permission.write Effect.allow
            ∷ hr_grant 1 SubjectType.company 7 Permission.read Effect.deny
            ∷ [])
          [])
        100
        (employee 6)
        office
        (some report.name)
        (some 10)
        true
        false
evaluate_access-perm_example =
    evaluate_access-perm db 100 (employee 6) office (some report.name) (some 10) true false
      (hr_grant 2 SubjectType.user 6 Permission.write Effect.allow
        ∷ hr_grant 1 SubjectType.company 7 Permission.read Effect.deny
        ∷ [])
      rules-perm
