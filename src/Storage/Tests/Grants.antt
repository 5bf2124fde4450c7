-- ===== src/Storage/Tests/Grants.antt =====
-- Tests of apps/storage/grants.py.
use storage_service.Prelude.{ℕ, ◌+◌, ◌≡◌, refl, [], ◌∷◌, Option, none, some}
use storage_service.Prelude.Outcome.{raised}
use storage_service.Text.{Text, codes}
use storage_service.Text.Decimal.{str}
use storage_service.Storage.Models.{
  SubjectType, ResourceType, Permission, Effect, StorageAccessGrant, Db,
}
use storage_service.Storage.Errors.{storage_error}
use storage_service.Storage.Access.{
  evaluate_access, is_member, is_active_grant, active_grants, grant_applies, matching_grants,
  subject_matches, resource_matches_grant, object_name, kind_default_allows, grant_specificity,
  pair_lt, pair_eq, higher, max_from, allow_loop, decide_top, top_grants,
}
use storage_service.Storage.Inherited.{
  can_open_to_company, nearest_private_ancestor_folder, folder_grants_for_prefixes, is_company_deny,
  bucket_name,
}
use storage_service.Storage.Resolve.{
  get_accessible_bucket, require_company_id, ensure_company_bucket,
}
use storage_service.Storage.Shares.{Expiry, parse_expires_at}
use storage_service.Storage.Grants.{assert_can_manage_resource, resolve_object, create_grant}
use storage_service.Storage.Grants.Requests.{GrantRequest, read_request}
use storage_service.Storage.Tests.{employee, hr_grant, tables}
use storage_service.Storage.Tests.Objects.{platform}

-- The report is opened to the company.
abbrev request : GrantRequest
request = record {
  subject_type = codes "company";
  subject_id = codes " 7 ";
  resource_type = codes "object";
  resource_id = codes "/hr/report.txt";
  permission = [];
  effect = [];
  bucket = [];
  notes = [];
  expires_at = Expiry.absent;
}

abbrev no_uuid : Text → Option ℕ
no_uuid s = none

abbrev fresh : ℕ → ℕ
fresh n = n + 50

abbrev writable : Db
writable = tables (hr_grant 2 SubjectType.user 5 Permission.write Effect.allow ∷ []) []

-- The folder is closed to the company.
abbrev closed : Db
closed =
    tables
      (hr_grant 2 SubjectType.user 5 Permission.write Effect.allow
        ∷ hr_grant 3 SubjectType.company 7 Permission.read Effect.deny
        ∷ [])
      []

abbrev made : StorageAccessGrant
made = record {
  id = 52;
  company_id = 7;
  bucket_id = 1;
  object_id = some 10;
  subject_type = SubjectType.company;
  subject_id = codes "7";
  resource_type = ResourceType.object;
  permission = Permission.read;
  effect = Effect.allow;
  created_by_id = some 5;
  expires_at = none;
  notes = [];
}

refuses :
    (create_grant platform no_uuid fresh 100 (employee 5) request closed).0
    ≡ raised (storage_error 400 (codes "parent_folder_private"))
unfolding create_grant read_request get_accessible_bucket require_company_id ensure_company_bucket
    assert_can_manage_resource resolve_object parse_expires_at evaluate_access is_member
    is_active_grant active_grants grant_applies matching_grants subject_matches
    resource_matches_grant object_name kind_default_allows grant_specificity pair_lt pair_eq higher
    max_from allow_loop decide_top top_grants str can_open_to_company
    nearest_private_ancestor_folder folder_grants_for_prefixes is_company_deny bucket_name
refuses = refl
