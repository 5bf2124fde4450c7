-- ===== src/Storage/Tests/Shares.antt =====
-- Tests of apps/storage/shares.py.
use storage_service.Prelude.{
  ℕ, ◌+◌, ◌≤◌, ◌≡◌, refl, sym, ◌∙◌, false, List, [], ◌∷◌, none, some, arith,
}
use storage_service.Prelude.Outcome.{ok, raised}
use storage_service.Text.{Text, codes, text_eq→eq}
use storage_service.Storage.Models.{
  SubjectType, Permission, Effect, Bucket, StorageObject, ObjectShareLink, Db,
}
use storage_service.Storage.Errors.{storage_error}
use storage_service.Storage.Access.{
  evaluate_access, is_member, is_active_grant, active_grants, grant_applies, matching_grants,
  subject_matches, resource_matches_grant, object_name, kind_default_allows, grant_specificity,
  pair_lt, pair_eq, higher, max_from, allow_loop, decide_top, top_grants,
}
use storage_service.Text.Decimal.{str}
use storage_service.Storage.Paths.{safe_object_path}
use storage_service.Storage.Resolve.{
  get_accessible_bucket, find_object, require_company_id, ensure_company_bucket,
  assert_can_access_path,
}
use storage_service.Storage.Shares.{
  Expiry, is_active, new_link, create_share_link, parse_expires_at, check_limits, revoke_share_link,
  redeem_share_link,
}
use storage_service.Storage.Shares.Rewrites.{Op, redeem, revoke, link_of, Keyed}
use storage_service.Storage.Shares.Cap.{wins, wins-le-max_downloads}
use storage_service.Storage.Shares.Revoked.{run, revoke_share_link-redeem_share_link}
use storage_service.Storage.Shares.Created.{Made, create_share_link-ok}
use storage_service.Storage.Tests.{report, employee, hr_grant, tables}

-- A link to the report, which may be downloaded twice.
abbrev link : ObjectShareLink
link = new_link 50 (codes "tok") report 7 5 none (some 2) []

abbrev db : Db
db = tables [] (link ∷ [])

-- Three redemptions with a revocation before the third.
abbrev requests : List Op
requests =
    redeem 100 (codes "tok")
    ∷ redeem 101 (codes "tok")
    ∷ revoke 102 (employee 5) (codes "tok")
    ∷ redeem 103 (codes "tok")
    ∷ []

wins-requests : wins (codes "tok") requests db ≡ 2
unfolding redeem_share_link revoke_share_link is_active
wins-requests = refl

token_of_one : (a : Text) (x : ObjectShareLink) → link_of a db ≡ some x → codes "tok" ≡ a
token_of_one a x e = text_eq→eq (codes "tok") a (ground arith)

one_link-Keyed : Keyed db
one_link-Keyed a b x y fx fy same = sym (token_of_one a x fx) ∙ token_of_one b y fy

wins-le-max_downloads_example : 0 + wins (codes "tok") requests db ≤ 2
wins-le-max_downloads_example =
    wins-le-max_downloads (codes "tok") requests db link 2 one_link-Keyed refl refl (omega arith)

revokes :
    (revoke_share_link 100 (employee 5) (codes "tok") db).0
    ≡ ok (record link { revoked_at = some 100 })
unfolding revoke_share_link
revokes = refl

revoke_share_link-redeem_share_link_example :
    let after = run requests (revoke_share_link 100 (employee 5) (codes "tok") db).1 in
    redeem_share_link 105 (codes "tok") after
    ≡ (raised (storage_error 410 (codes "share_inactive")), after)
revoke_share_link-redeem_share_link_example =
    revoke_share_link-redeem_share_link 100 105 (employee 5) (codes "tok") requests db
      (record link { revoked_at = some 100 }) revokes

-- User 5 may write in the folder `hr`, and links to the report in it.
abbrev shared : Db
shared = tables (hr_grant 2 SubjectType.user 5 Permission.write Effect.allow ∷ []) []

abbrev fresh : ℕ → ℕ
fresh n = n + 50

abbrev made : ObjectShareLink
made = new_link 51 (codes "tok") report 7 5 none (some 2) []

creates :
    create_share_link fresh 100
      (codes "tok")
      (employee 5)
      (codes "company")
      (codes "/hr/report.txt")
      Expiry.absent
      (some 2)
      []
      shared
    ≡ (ok made, record shared { links = made ∷ [] })
unfolding create_share_link get_accessible_bucket require_company_id ensure_company_bucket
    find_object safe_object_path assert_can_access_path parse_expires_at check_limits
    evaluate_access is_member is_active_grant active_grants grant_applies matching_grants
    subject_matches resource_matches_grant object_name kind_default_allows grant_specificity pair_lt
    pair_eq higher max_from allow_loop decide_top top_grants str
creates = refl

create_share_link-ok_example :
    (seen : Db) × (bucket : Bucket) × (obj : StorageObject) × (get_accessible_bucket 50 100
        (employee 5)
        (codes "company")
        false
        false
        shared
      ≡ (ok bucket, seen))
    × (find_object bucket (codes "/hr/report.txt") seen ≡ (ok obj, seen))
    × Made fresh 100
        (codes "tok")
        (employee 5)
        Expiry.absent
        (some 2)
        []
        seen
        bucket
        obj
        made
        (record shared { links = made ∷ [] })
create_share_link-ok_example =
    create_share_link-ok fresh 100 (codes "tok") (employee 5) Expiry.absent (some 2) []
      (codes "company") (codes "/hr/report.txt") shared (record shared { links = made ∷ [] }) made
      creates
