-- ===== src/Storage/Quotas.antt =====
-- apps/storage/quotas.py. The table of company quotas has one row for each company, and that of
-- user quotas one for each user of a company: `filter(pk=...)` is a test on those keys.
pub mod Counters
pub mod Limits
use storage_service.Prelude.{
  ℕ, ◌+◌, ◌-◌, Bool, true, false, ◌&&◌, not, List, [], ◌∷◌, ◌++◌, Option, none, some, ◌==◌, leb,
  ltb, if◌then◌else◌, find, update_where,
}
use storage_service.Prelude.Int.{ℤ, pos, negsuc}
use storage_service.Prelude.Outcome.{Exec, pure, fail, check, ◌>>=◌}
use storage_service.Storage.Models.{CompanyQuota, UserQuota, Db}

-- `DEFAULT_COMPANY_QUOTA_BYTES` and `DEFAULT_USER_QUOTA_BYTES` of config/settings.py.
pub record QuotaSettings : Type 0 where
  pub default_company_quota_bytes : ℕ
  pub default_user_quota_bytes : ℕ

pub data QuotaExceeded : Type 0 where
  company_quota_exceeded user_quota_exceeded : QuotaExceeded

abbrev pub of_company : ℕ → CompanyQuota → Bool
of_company company_id q = q.company_id == company_id

abbrev pub of_user : ℕ → ℕ → UserQuota → Bool
of_user company_id user_id q = (q.company_id == company_id) && (q.user_id == user_id)

-- `value or None`.
abbrev pub positive : ℕ → Option ℕ
positive n = if n == 0 then none else some n

abbrev pub default_company_quota : QuotaSettings → ℕ → CompanyQuota
default_company_quota settings company_id = record {
  company_id = company_id;
  max_bytes = settings.default_company_quota_bytes;
  used_bytes = 0;
  max_bytes_per_user = positive settings.default_user_quota_bytes;
}

abbrev pub found_or_created : QuotaSettings → ℕ → Db → Option CompanyQuota → CompanyQuota × Db
found_or_created settings company_id db (some quota) = (quota, db)
found_or_created settings company_id db none =
    let quota = default_company_quota settings company_id in
    (quota, record db { company_quotas = db.company_quotas ++ quota ∷ [] })

unfoldable pub get_or_create_company_quota : QuotaSettings → ℕ → Db → CompanyQuota × Db
get_or_create_company_quota settings company_id db =
    found_or_created settings company_id db (find (of_company company_id) db.company_quotas)

-- `default is None or default <= 0`.
abbrev pub per_user_default : Option ℕ → Option ℕ
per_user_default none = none
per_user_default (some n) = positive n

abbrev pub user_limit : CompanyQuota → Option UserQuota → Option ℕ × Option UserQuota
user_limit company (some row) = (some row.max_bytes, some row)
user_limit company none = (per_user_default company.max_bytes_per_user, none)

unfoldable pub resolve_user_limit :
    CompanyQuota → Option ℕ → List UserQuota → Option ℕ × Option UserQuota
resolve_user_limit company none rows = (none, none)
resolve_user_limit company (some user_id) rows =
    user_limit company (find (of_user company.company_id user_id) rows)

abbrev pub used_of : Option UserQuota → ℕ
used_of none = 0
used_of (some row) = row.used_bytes

-- `if user_max:` and the test behind it.
abbrev pub user_overflow : Option ℕ → ℕ → ℕ → Bool
user_overflow none used delta = false
user_overflow (some user_max) used delta = not (user_max == 0) && ltb user_max (used + delta)

abbrev pub company_overflow : CompanyQuota → ℕ → Bool
company_overflow company delta =
    not (company.max_bytes == 0) && ltb company.max_bytes (company.used_bytes + delta)

-- `additional_bytes` is a length, so it is not negative.
unfoldable pub assert_can_store :
    QuotaSettings → ℕ → Option ℕ → ℕ → ℕ → Exec Db QuotaExceeded (Unit {0})
assert_can_store settings company_id user_id additional_bytes replacing_bytes db =
    let delta = additional_bytes - replacing_bytes in
    let (company, db') = get_or_create_company_quota settings company_id db in
    let (user_max, user_row) = resolve_user_limit company user_id db'.user_quotas in
    if leb additional_bytes replacing_bytes
    then pure tt db
    else if company_overflow company delta
    then fail company_quota_exceeded db'
    else if user_overflow user_max (used_of user_row) delta
    then fail user_quota_exceeded db'
    else pure tt db'

-- `F('used_bytes') + delta`, then the clamp at 0.
abbrev pub add_clamped : ℕ → ℤ → ℕ
add_clamped used (pos n) = used + n
add_clamped used (negsuc n) = used - (n + 1)

abbrev pub is_zero : ℤ → Bool
is_zero (pos n) = n == 0
is_zero (negsuc n) = false

abbrev pub charge_company : ℤ → CompanyQuota → CompanyQuota
charge_company delta q = record q { used_bytes = add_clamped q.used_bytes delta }

abbrev pub charge_user : ℤ → UserQuota → UserQuota
charge_user delta q = record q { used_bytes = add_clamped q.used_bytes delta }

-- The row of a user without one is made only where a limit is set.
abbrev pub tracked : ℕ → ℕ → Option ℕ × Option UserQuota → List UserQuota → Option (List UserQuota)
tracked company_id user_id (_, some row) rows = some rows
tracked company_id user_id (none, none) rows = none
tracked company_id user_id (some user_max, none) rows = some (
    rows
    ++ record { company_id = company_id; user_id = user_id; max_bytes = user_max; used_bytes = 0 }
      ∷ [])

abbrev pub charge_rows : ℕ → ℕ → ℤ → Db → Option (List UserQuota) → Db
charge_rows company_id user_id delta db none = db
charge_rows company_id user_id delta db (some rows) = record db {
  user_quotas = update_where (of_user company_id user_id) (charge_user delta) rows;
}

unfoldable pub apply_user_delta : ℕ → CompanyQuota → Option ℕ → ℤ → Db → Db
apply_user_delta company_id company none delta db = db
apply_user_delta company_id company (some user_id) delta db =
    charge_rows company_id user_id delta db (
      tracked company_id user_id (resolve_user_limit company (some user_id) db.user_quotas)
        db.user_quotas)

unfoldable pub apply_usage_delta : QuotaSettings → ℕ → Option ℕ → ℤ → Db → Db
apply_usage_delta settings company_id user_id delta db =
    let (company, db') = get_or_create_company_quota settings company_id db in
    let charged = record db' {
      company_quotas =
          update_where (of_company company_id) (charge_company delta) db'.company_quotas;
    } in
    if is_zero delta then db else apply_user_delta company_id company user_id delta charged
