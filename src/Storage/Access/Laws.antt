-- ===== src/Storage/Access/Laws.antt =====
-- `evaluate_access` across companies and across permissions.
use storage_service.Prelude.{ℕ, ◌≡◌, ◌≢◌, Bool, true, ◌&&◌, Option, none, some, arith, &&-split}
use storage_service.Text.{Text}
use storage_service.Storage.Models.{BucketKind, Permission, StoragePrincipal, Bucket, Db}
use storage_service.Storage.Access.{
  required_permission, kind_default, is_member, matching_grants, evaluate_access,
}
use storage_service.Storage.Access.Ranking.{decisive}
use storage_service.Storage.Access.Decision.{Weaker, verdict-Weaker}
use storage_service.Storage.Access.Spec.{decision, evaluate_access-decision}

is_member-company :
    (principal : StoragePrincipal) (bucket : Bucket)
    → is_member principal bucket ≡ true
    → (principal.company_id ≡ some bucket.company_id) × (principal.user_id ≢ none)
unfolding is_member
is_member-company principal bucket h = ground arith

kind_default-Weaker :
    (kind : BucketKind) (principal : StoragePrincipal) (p q : Permission)
    → Weaker p q
    → kind_default kind principal q ≡ true
    → kind_default kind principal p ≡ true
kind_default-Weaker kind principal p q w h = ground arith

module _ (db : Db) (now : ℕ) (principal : StoragePrincipal) (bucket : Bucket) (path : Option Text)
    (object_id : Option ℕ) where
  -- Whatever the grants say, access to a bucket is only ever given to an authenticated member of
  -- the company that owns it.
  pub evaluate_access_tenant :
      (for_write for_admin : Bool)
      → evaluate_access db now principal bucket path object_id for_write for_admin ≡ true
      → (principal.company_id ≡ some bucket.company_id) × (principal.user_id ≢ none)
  unfolding evaluate_access
  evaluate_access_tenant for_write for_admin h = is_member-company principal bucket (ground arith)

  -- Who may do something may do, on the same path, all that needs a weaker permission: admin
  -- implies write, and write implies read.
  pub evaluate_access-Weaker :
      (w a w' a' : Bool)
      → Weaker (required_permission w' a') (required_permission w a)
      → evaluate_access db now principal bucket path object_id w a ≡ true
      → evaluate_access db now principal bucket path object_id w' a' ≡ true
  evaluate_access-Weaker w a w' a' weaker h =
      let grants = decisive db.objects (matching_grants db now principal bucket path object_id) in
      let (member, decided) = &&-split (is_member principal bucket) _ (split_decision h) in
      rw (evaluate_access-decision, member)
        (verdict-Weaker (required_permission w' a') (required_permission w a) grants _ _ weaker
          (kind_default-Weaker bucket.kind principal _ _ weaker) decided)
    where
      split_decision :
          evaluate_access db now principal bucket path object_id w a ≡ true
          → (is_member principal bucket
              && decision db now principal bucket path object_id (required_permission w a))
            ≡ true
      split_decision e = rw evaluate_access-decision at e
