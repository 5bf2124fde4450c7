-- ===== src/Storage/Grants/Created.antt =====
-- What a request that creates a grant has shown: the right over the resource, and that no private
-- folder stands above a path that is opened to the company.
use storage_service.Prelude.{ℕ, ◌≡◌, Bool, true, false, not, ◌||◌, [], ◌∷◌, ◌++◌, Option}
use storage_service.Prelude.Outcome.{Outcome, ok, ◌>>=◌, gets, check}
use storage_service.Text.{Text}
use storage_service.Storage.Models.{Bucket, StorageAccessGrant, ResourceType, StoragePrincipal, Db}
use storage_service.Storage.Errors.{Call, storage_error}
use storage_service.Storage.Inherited.{can_open_to_company}
use storage_service.Storage.Resolve.{get_accessible_bucket}
use storage_service.Storage.Objects.{Platform}
use storage_service.Storage.Shares.{is_company_admin}
use storage_service.Storage.Grants.{
  grant_target, needs_admin, opens, grant_of, may_manage, denied_code,
}
use storage_service.Storage.Grants.Requests.{ReadRequest}

abbrev checked_right : ℕ → StoragePrincipal → ResourceType → Text → Bool → Bucket → Call (Unit {0})
checked_right now principal resource_type path for_admin bucket = do
  allowed ← gets (λ db.
      is_company_admin principal || may_manage db now principal bucket resource_type path for_admin)
  check allowed (storage_error 403 (denied_code resource_type)) tt

-- What `create_grant` has done, call by call, from the tables after the request was read: it finds
-- the bucket, and finds it again where it tests the right; the right and the guard hold in the tables
-- that this leaves; the grant is on that bucket and on the object that the resource names, or has
-- made there; and it is the one row added.
abbrev pub Granted :
    Platform
    → (Text → Option ℕ)
    → (ℕ → ℕ)
    → ℕ
    → StoragePrincipal
    → ℕ
    → ReadRequest
    → Db
    → StorageAccessGrant
    → Db
    → Type 0
Granted platform parse_uuid fresh now principal company_id read start g after =
    (bucket : Bucket) × (opened : Db) × (tested : Bucket) × (seen : Db) × (object_id : Option ℕ)
    × (placed : Db) × (get_accessible_bucket (fresh 0) now principal read.name false false start
        ≡ (ok bucket, opened))
    × (get_accessible_bucket (fresh 0) now principal read.name false false opened
        ≡ (ok tested, seen))
    × ((is_company_admin principal
          || may_manage seen now principal tested read.resource_type read.path (needs_admin read))
        ≡ true)
    × ((not (opens read) || can_open_to_company seen now company_id read.name read.path) ≡ true)
    × (grant_target platform parse_uuid (fresh 1) bucket read principal.user_id read.resource_type
          seen
        ≡ (ok object_id, placed))
    × (g ≡ grant_of (fresh 2) company_id principal.user_id bucket.id object_id read)
    × (after ≡ record placed { grants = placed.grants ++ g ∷ [] })
