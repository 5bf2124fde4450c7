-- ===== src/Storage/Shares.antt =====
-- apps/storage/shares.py: capability links to one object. `fresh 0` is the identifier of a
-- company bucket that a request may have to make and `fresh 1` that of a new link; `token` is
-- what `secrets.token_urlsafe` returns. A row is updated by its primary key.
pub mod Cap
pub mod Rewrites
pub mod Revoked
pub mod Created
use storage_service.Prelude.{
  ℕ, ◌+◌, Bool, true, false, not, ◌||◌, ◌&&◌, List, [], ◌∷◌, ◌++◌, Option, none, some, ◌==◌, leb,
  ltb, if◌then◌else◌, find, keep, update_where, take,
}
use storage_service.Prelude.Outcome.{ok, fail, raised, pure, fail, gets, check, ◌>>=◌, ◌>>◌}
use storage_service.Text.{Text, codes, text_eq}
use storage_service.Storage.Models.{StorageObject, ObjectShareLink, StoragePrincipal, Db}
use storage_service.Storage.Errors.{Call, Failure, storage_error, type_error}
use storage_service.Storage.Resolve.{
  get_accessible_bucket, find_object, assert_can_access_path, or_not_found,
}

-- `ObjectShareLink.is_active`.
abbrev pub is_past : ℕ → Option ℕ → Bool
is_past now none = false
is_past now (some expires_at) = leb expires_at now

abbrev pub is_exhausted : ℕ → Option ℕ → Bool
is_exhausted count none = false
is_exhausted count (some max_downloads) = leb max_downloads count

abbrev pub is_set : Option ℕ → Bool
is_set none = false
is_set (some _) = true

unfoldable pub is_active : ℕ → ObjectShareLink → Bool
is_active now link =
    if is_set link.revoked_at
    then false
    else if is_past now link.expires_at
    then false
    else if is_exhausted link.download_count link.max_downloads
    then false
    else true

-- What `_parse_expires_at` makes of the field `expires_at` of a request; the parser is Django's.
pub data Expiry : Type 0 where
  absent malformed : Expiry
  at : ℕ → Expiry

unfoldable pub parse_expires_at : Expiry → Call (Option ℕ)
parse_expires_at absent = pure none
parse_expires_at malformed = fail (storage_error 400 (codes "invalid_expires_at"))
parse_expires_at (at time) = pure (some time)

abbrev pub is_below_one : Option ℕ → Bool
is_below_one none = false
is_below_one (some n) = n == 0

abbrev pub new_link :
    ℕ → Text → StorageObject → ℕ → ℕ → Option ℕ → Option ℕ → Text → ObjectShareLink
new_link id token obj company_id user_id expires_at max_downloads notes = record {
  id = id;
  token = token;
  object_id = obj.id;
  company_id = company_id;
  created_by_id = user_id;
  expires_at = expires_at;
  max_downloads = max_downloads;
  download_count = 0;
  revoked_at = none;
  notes = take 255 notes;
}

-- `int(principal.user_id)`.
abbrev pub int_user : Option ℕ → Call ℕ
int_user none = fail type_error
int_user (some user_id) = pure user_id

abbrev pub insert_link : ObjectShareLink → Call ObjectShareLink
insert_link link db = (ok link, record db { links = db.links ++ link ∷ [] })

-- The limits that a new link may have.
unfoldable pub check_limits : ℕ → Option ℕ → Option ℕ → Call (Unit {0})
check_limits now expires max_downloads = do
  check (not (is_below_one max_downloads)) (storage_error 400 (codes "invalid_max_downloads")) tt
  check (is_set expires || is_set max_downloads) (storage_error 400 (codes "share_limit_required"))
      tt
  check (not (is_past now expires)) (storage_error 400 (codes "invalid_expires_at")) tt

unfoldable pub create_share_link :
    (ℕ → ℕ)
    → ℕ
    → Text
    → StoragePrincipal
    → Text
    → Text
    → Expiry
    → Option ℕ
    → Text
    → Call ObjectShareLink
create_share_link fresh now token principal bucket_name path expires_at max_downloads notes = do
  bucket ← get_accessible_bucket (fresh 0) now principal bucket_name false false
  obj ← find_object bucket path
  obj ← assert_can_access_path now principal bucket obj true false
  expires ← parse_expires_at expires_at
  check_limits now expires max_downloads
  user_id ← int_user principal.user_id
  insert_link (new_link (fresh 1) token obj bucket.company_id user_id expires max_downloads notes)

abbrev pub is_company_admin : StoragePrincipal → Bool
is_company_admin principal = principal.is_company_owner || principal.is_staff

-- The creator whose links are listed, if the listing is of one.
abbrev pub creator_filter : Bool → Option ℕ → Call (Option ℕ)
creator_filter true user_id = pure none
creator_filter false user_id = int_user user_id >>= λ id. pure (some id)

abbrev pub made_by : Option ℕ → ObjectShareLink → Bool
made_by none link = true
made_by (some id) link = link.created_by_id == id

unfoldable pub list_share_links_for_object :
    ℕ → ℕ → StoragePrincipal → Text → Text → Call (List ObjectShareLink)
list_share_links_for_object fresh now principal bucket_name path = do
  bucket ← get_accessible_bucket fresh now principal bucket_name false false
  obj ← find_object bucket path
  obj ← assert_can_access_path now principal bucket obj true false
  creator ← creator_filter (is_company_admin principal) principal.user_id
  gets (λ db.
      keep
        (λ l. (l.object_id == obj.id) && (l.company_id == bucket.company_id) && made_by creator l)
        db.links)

abbrev pub has_token : Text → ObjectShareLink → Bool
has_token token link = text_eq link.token token

abbrev pub in_company : Option ℕ → ObjectShareLink → Bool
in_company none link = false
in_company (some company_id) link = link.company_id == company_id

abbrev pub revoked : ℕ → ObjectShareLink → ObjectShareLink
revoked now link = if is_set link.revoked_at then link else record link { revoked_at = some now }

abbrev pub save_link : ObjectShareLink → (ObjectShareLink → ObjectShareLink) → Call ObjectShareLink
save_link link f db =
    (ok (f link), record db { links = update_where (λ l. l.id == link.id) f db.links })

unfoldable pub revoke_share_link : ℕ → StoragePrincipal → Text → Call ObjectShareLink
revoke_share_link now principal token = do
  found ← gets (λ db. find (has_token token) db.links)
  link ← or_not_found (codes "share_not_found") found
  check (in_company principal.company_id link) (storage_error 404 (codes "share_not_found")) tt
  user_id ← int_user principal.user_id
  check ((link.created_by_id == user_id) || is_company_admin principal)
      (storage_error 403 (codes "share_revoke_denied")) tt
  save_link link (revoked now)

abbrev pub downloaded : ObjectShareLink → ObjectShareLink
downloaded link = record link { download_count = link.download_count + 1 }

abbrev pub touched : ℕ → StorageObject → StorageObject
touched now obj = record obj { last_accessed_at = some now }

abbrev pub touch_object : ℕ → ℕ → Call (Unit {0})
touch_object now object_id db =
    (ok tt, record db { objects = update_where (λ o. o.id == object_id) (touched now) db.objects })

-- The transaction holds the row's lock from the read to the commit, so a redemption is one step.
unfoldable pub redeem_share_link : ℕ → Text → Call ObjectShareLink
redeem_share_link now token = do
  found ← gets (λ db. find (has_token token) db.links)
  link ← or_not_found (codes "share_not_found") found
  check (is_active now link) (storage_error 410 (codes "share_inactive")) tt
  updated ← save_link link downloaded
  touch_object now link.object_id
  pure updated
