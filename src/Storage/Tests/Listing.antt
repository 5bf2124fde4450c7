-- ===== src/Storage/Tests/Listing.antt =====
-- Tests of the listings of apps/storage/services.py.
use storage_service.Prelude.{◌≡◌, refl, true, false, [], ◌∷◌, some, All}
use storage_service.Text.{codes}
use storage_service.Text.Decimal.{str}
use storage_service.Storage.Models.{SubjectType, Permission, Effect, Db}
use storage_service.Storage.Access.{
  evaluate_access, is_member, is_active_grant, active_grants, grant_applies, matching_grants,
  subject_matches, resource_matches_grant, object_name, kind_default_allows, grant_specificity,
  pair_lt, pair_eq, higher, max_from, allow_loop, decide_top, top_grants,
}
use storage_service.Storage.Folders.{prefix_filter}
use storage_service.Storage.Listing.{folder, list_objects}
use storage_service.Storage.Listing.Readable.{Shown, list_objects-Shown}
use storage_service.Storage.Tests.{office, employee, hr_grant, tables}

-- The folder `hr` is closed to the company, and open to user 5.
abbrev closed : Db
closed =
    tables
      (hr_grant 2 SubjectType.user 5 Permission.write Effect.allow
        ∷ hr_grant 3 SubjectType.company 7 Permission.read Effect.deny
        ∷ [])
      []

lists_folder :
    list_objects closed 100 (some (employee 5)) office [] 10 0 (λ s. true) (λ a b. false)
    ≡ folder (codes "hr") (some 9) ∷ []
unfolding list_objects evaluate_access is_member is_active_grant active_grants grant_applies
    matching_grants subject_matches resource_matches_grant object_name kind_default_allows
    grant_specificity pair_lt pair_eq higher max_from allow_loop decide_top top_grants str
lists_folder = refl

lists_nothing :
    list_objects closed 100 (some (employee 6)) office [] 10 0 (λ s. true) (λ a b. false) ≡ []
unfolding list_objects evaluate_access is_member is_active_grant active_grants grant_applies
    matching_grants subject_matches resource_matches_grant object_name kind_default_allows
    grant_specificity pair_lt pair_eq higher max_from allow_loop decide_top top_grants str
lists_nothing = refl

list_objects-Shown_example :
    All
      (Shown closed 100 (some (employee 5)) office (prefix_filter []))
      (list_objects closed 100 (some (employee 5)) office [] 10 0 (λ s. true) (λ a b. false))
list_objects-Shown_example =
    list_objects-Shown closed 100 (some (employee 5)) office [] 10 0 (λ s. true) (λ a b. false)
