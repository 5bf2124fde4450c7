-- ===== src/Storage/Models.antt =====
-- apps/storage/models.py: the tables, one record for each row, and the choices of their columns.
-- A UUID or an integer key is a number; a time is a number of microseconds. The columns
-- `created_at` and `updated_at`, which no decision reads, are left out.
use storage_service.Prelude.{ℕ, Bool, Option, List}
use storage_service.Text.{Text}

pub data BucketKind : Type 0 where
  company connector : BucketKind

pub record Bucket : Type 0 where
  pub id : ℕ
  pub name : Text
  pub company_id : ℕ
  pub kind : BucketKind
  pub public : Bool
  pub file_size_limit : Option ℕ
  pub allowed_mime_types : List Text
  pub owner_id : Option ℕ
  pub connector_provider : Text

-- `metadata` is a JSON object that the program stores and returns as it is.
pub record StorageObject : Type 0 where
  pub id : ℕ
  pub bucket_id : ℕ
  pub name : Text
  pub company_id : ℕ
  pub owner_id : Option ℕ
  pub size : ℕ
  pub etag : Text
  pub mime_type : Text
  pub metadata : List (Text × Text)
  pub storage_key : Text
  pub version : ℕ
  pub last_accessed_at : Option ℕ

pub record CompanyQuota : Type 0 where
  pub company_id : ℕ
  pub max_bytes : ℕ
  pub used_bytes : ℕ
  pub max_bytes_per_user : Option ℕ

pub record UserQuota : Type 0 where
  pub company_id : ℕ
  pub user_id : ℕ
  pub max_bytes : ℕ
  pub used_bytes : ℕ

pub data SubjectType : Type 0 where
  user group company : SubjectType

pub data ResourceType : Type 0 where
  bucket folder object : ResourceType

pub data Permission : Type 0 where
  read write admin : Permission

pub data Effect : Type 0 where
  allow deny : Effect

pub record StorageAccessGrant : Type 0 where
  pub id : ℕ
  pub company_id : ℕ
  pub bucket_id : ℕ
  pub object_id : Option ℕ
  pub subject_type : SubjectType
  pub subject_id : Text
  pub resource_type : ResourceType
  pub permission : Permission
  pub effect : Effect
  pub created_by_id : Option ℕ
  pub expires_at : Option ℕ
  pub notes : Text

pub record ObjectShareLink : Type 0 where
  pub id : ℕ
  pub token : Text
  pub object_id : ℕ
  pub company_id : ℕ
  pub created_by_id : ℕ
  pub expires_at : Option ℕ
  pub max_downloads : Option ℕ
  pub download_count : ℕ
  pub revoked_at : Option ℕ
  pub notes : Text

-- The database.
pub record Db : Type 0 where
  pub buckets : List Bucket
  pub objects : List StorageObject
  pub company_quotas : List CompanyQuota
  pub user_quotas : List UserQuota
  pub grants : List StorageAccessGrant
  pub links : List ObjectShareLink

-- apps/authapi/principal.py: what the request's token says of its bearer. A request with no
-- token has no `user_id`.
pub record StoragePrincipal : Type 0 where
  pub user_id : Option ℕ
  pub company_id : Option ℕ
  pub is_staff : Bool
  pub is_company_owner : Bool
