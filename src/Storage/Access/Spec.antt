-- ===== src/Storage/Access/Spec.antt =====
-- `evaluate_access` against a description without its loops, and against the order of the grants.
use mathlib.Core.List.{Perm}
use storage_service.Prelude.{
  ℕ, ◌≡◌, sym, ◌∙◌, ap, fun_ext, Bool, not, ◌&&◌, List, Option, arith, any, any-keep, any-perm,
  keep,
}
use storage_service.Text.{Text}
use storage_service.Storage.Models.{
  Permission, StorageObject, StorageAccessGrant, StoragePrincipal, Bucket, Db,
}
use storage_service.Storage.Access.{
  required_permission, kind_default, kind_default_allows, is_member, matching_grants, active_grants,
  grant_applies, or_default, evaluate_access, grant_specificity, pair_lt,
}
use storage_service.Storage.Access.Ranking.{outranked, decisive, top_grants-decisive}
use storage_service.Storage.Access.Decision.{verdict, decide_top-verdict}

-- The verdict of the grants that no other matching grant outranks, or the bucket's default.
abbrev pub decision :
    Db → ℕ → StoragePrincipal → Bucket → Option Text → Option ℕ → Permission → Bool
decision db now principal bucket path object_id required =
    or_default
      (verdict required
        (decisive db.objects (matching_grants db now principal bucket path object_id)))
      (kind_default bucket.kind principal required)

-- A member of the company that owns the bucket gets the verdict of the grants that no other
-- matching grant outranks, or the bucket's default where there is no verdict; nobody else gets in.
pub evaluate_access-decision :
    (db : Db) (now : ℕ) (principal : StoragePrincipal) (bucket : Bucket) (path : Option Text)
    (object_id : Option ℕ) (for_write for_admin : Bool)
    → evaluate_access db now principal bucket path object_id for_write for_admin ≡ (
        is_member principal bucket
        && decision db now principal bucket path object_id
            (required_permission for_write for_admin))
unfolding evaluate_access kind_default_allows
evaluate_access-decision db now principal bucket path object_id for_write for_admin =
    rw
      (
        top_grants-decisive db.objects (matching_grants db now principal bucket path object_id),
        decide_top-verdict (required_permission for_write for_admin)
            (decisive db.objects (matching_grants db now principal bucket path object_id)),
      )
      (ground arith)

-- Two lists that no test by `any` tells apart.
SameTests : List StorageAccessGrant → List StorageAccessGrant → Type 0
SameTests xs ys = (p : StorageAccessGrant → Bool) → any p xs ≡ any p ys

keep-SameTests :
    (q : StorageAccessGrant → Bool) (xs ys : List StorageAccessGrant)
    → SameTests xs ys
    → SameTests (keep q xs) (keep q ys)
unfolding SameTests
keep-SameTests q xs ys h p = any-keep p q xs ∙ h (λ a. q a && p a) ∙ sym (any-keep p q ys)

decisive-SameTests :
    (objects : List StorageObject) (xs ys : List StorageAccessGrant)
    → SameTests xs ys
    → SameTests (decisive objects xs) (decisive objects ys)
unfolding SameTests
decisive-SameTests objects xs ys h =
    let e : outranked objects xs ≡ outranked objects ys =
      fun_ext (λ g. h (λ k. pair_lt (grant_specificity objects g) (grant_specificity objects k))) in
    λ p.
      keep-SameTests (λ g. not (outranked objects xs g)) xs ys h p
      ∙ ap (λ o. any p (keep (λ g. not (o g)) ys)) e

verdict-SameTests :
    (required : Permission) (xs ys : List StorageAccessGrant)
    → SameTests xs ys
    → verdict required xs ≡ verdict required ys
unfolding SameTests
verdict-SameTests required xs ys h = rw (h _, h _, h _)

-- The order of the rows of the table of grants does not change a decision.
pub evaluate_access-perm :
    (db : Db) (now : ℕ) (principal : StoragePrincipal) (bucket : Bucket) (path : Option Text)
    (object_id : Option ℕ) (for_write for_admin : Bool) (rows : List StorageAccessGrant)
    → Perm db.grants rows
    → evaluate_access db now principal bucket path object_id for_write for_admin
      ≡ evaluate_access
          (record db { grants = rows })
          now
          principal
          bucket
          path
          object_id
          for_write
          for_admin
unfolding SameTests matching_grants active_grants grant_applies
evaluate_access-perm db now principal bucket path object_id for_write for_admin rows h =
    let required = required_permission for_write for_admin in
    let matching = λ (d : Db). matching_grants d now principal bucket path object_id in
    let same : SameTests (decisive db.objects (matching db))
        (decisive db.objects (matching (record db { grants = rows }))) =
      decisive-SameTests db.objects (matching db) (matching (record db { grants = rows }))
        (keep-SameTests _ _ _ (keep-SameTests _ db.grants rows (λ p. any-perm p h))) in
    rw (
      evaluate_access-decision db now principal bucket path object_id for_write for_admin,
      evaluate_access-decision (record db { grants = rows }) now principal bucket path object_id
          for_write for_admin,
      verdict-SameTests required _ _ same,
    )
