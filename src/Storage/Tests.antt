-- ===== src/Storage/Tests.antt =====
-- A company, its staff and its files, for the tests of the storage application.
pub mod Paths
pub mod Access
pub mod Defaults
pub mod Quotas
pub mod Shares
pub mod Grants
pub mod Listing
pub mod Objects
use storage_service.Prelude.{ℕ, Bool, true, false, List, [], ◌∷◌, Option, none, some}
use storage_service.Text.{Text, codes}
use storage_service.Text.Decimal.{str}
use storage_service.Storage.Models.{
  Bucket, BucketKind, StorageObject, CompanyQuota, UserQuota, SubjectType, ResourceType, Permission,
  Effect, StorageAccessGrant, ObjectShareLink, StoragePrincipal, Db,
}

abbrev pub office : Bucket
office = record {
  id = 1;
  name = codes "company";
  company_id = 7;
  kind = BucketKind.company;
  public = false;
  file_size_limit = none;
  allowed_mime_types = [];
  owner_id = none;
  connector_provider = [];
}

abbrev pub report : StorageObject
report = record {
  id = 10;
  bucket_id = 1;
  name = codes "hr/report.txt";
  company_id = 7;
  owner_id = some 5;
  size = 40;
  etag = [];
  mime_type = codes "text/plain";
  metadata = [];
  storage_key = codes "7/10";
  version = 1;
  last_accessed_at = none;
}

-- An employee of company 7, and someone of another company.
abbrev pub employee : ℕ → StoragePrincipal
employee id = record {
  user_id = some id;
  company_id = some 7;
  is_staff = false;
  is_company_owner = false;
}

abbrev pub outsider : StoragePrincipal
outsider = record {
  user_id = some 5;
  company_id = some 8;
  is_staff = false;
  is_company_owner = false;
}

-- A grant on the folder `hr`.
abbrev pub hr_grant : ℕ → SubjectType → ℕ → Permission → Effect → StorageAccessGrant
hr_grant id subject_type subject permission effect = record {
  id = id;
  company_id = 7;
  bucket_id = 1;
  object_id = some 9;
  subject_type = subject_type;
  subject_id = str subject;
  resource_type = ResourceType.folder;
  permission = permission;
  effect = effect;
  created_by_id = some 5;
  expires_at = none;
  notes = [];
}

abbrev pub hr_marker : StorageObject
hr_marker = record report { id = 9; name = codes "hr/.emptyFolderPlaceholder"; size = 0 }

abbrev pub tables : List StorageAccessGrant → List ObjectShareLink → Db
tables grants links = record {
  buckets = office ∷ [];
  objects = hr_marker ∷ report ∷ [];
  company_quotas =
      record { company_id = 7; max_bytes = 100; used_bytes = 40; max_bytes_per_user = some 60 }
      ∷ [];
  user_quotas = record { company_id = 7; user_id = 5; max_bytes = 50; used_bytes = 40 } ∷ [];
  grants = grants;
  links = links;
}
