-- ===== src/Storage/Tests/Quotas.antt =====
-- Tests of apps/storage/quotas.py.
use storage_service.Prelude.{◌+◌, ◌-◌, ◌≡◌, ◌≤◌, ◌≢◌, refl, [], some, arith}
use storage_service.Prelude.Int.{pos, negsuc, sub_ℕ}
use storage_service.Prelude.Outcome.{ok, raised}
use storage_service.Storage.Models.{Db}
use storage_service.Storage.Quotas.{
  QuotaSettings, company_quota_exceeded, user_quota_exceeded, get_or_create_company_quota,
  resolve_user_limit, assert_can_store, apply_usage_delta, used_of,
}
use storage_service.Storage.Quotas.Counters.{
  company_row, user_row, limit_of, apply_usage_delta-moves,
}
use storage_service.Storage.Quotas.Limits.{assert_can_store-within, assert_can_store-within_user}
use storage_service.Storage.Tests.{tables}

abbrev settings : QuotaSettings
settings = record { default_company_quota_bytes = 1000; default_user_quota_bytes = 100 }

-- Company 7 has used 40 bytes of 100, and user 5 of it 40 of 50.
abbrev db : Db
db = tables [] []

admitted : (assert_can_store settings 7 (some 5) 50 40 db).0 ≡ ok tt
unfolding assert_can_store get_or_create_company_quota resolve_user_limit
admitted = refl

refused_user : (assert_can_store settings 7 (some 5) 51 40 db).0 ≡ raised user_quota_exceeded
unfolding assert_can_store get_or_create_company_quota resolve_user_limit
refused_user = refl

refused_company : (assert_can_store settings 7 (some 5) 101 40 db).0 ≡ raised company_quota_exceeded
unfolding assert_can_store get_or_create_company_quota resolve_user_limit
refused_company = refl

company_limited : (company_row settings 7 db).max_bytes ≢ 0
unfolding get_or_create_company_quota
company_limited = ground arith

company_fits : (company_row settings 7 db).used_bytes ≤ (company_row settings 7 db).max_bytes
unfolding get_or_create_company_quota
company_fits = omega arith

user_limited : limit_of settings 7 5 db ≡ some 50
unfolding get_or_create_company_quota resolve_user_limit
user_limited = refl

assert_can_store-within_example :
    let after = company_row settings 7 (
      apply_usage_delta settings 7
        (some 5)
        (sub_ℕ 50 40)
        (assert_can_store settings 7 (some 5) 50 40 db).1) in
    after.used_bytes ≤ after.max_bytes
assert_can_store-within_example =
    assert_can_store-within settings 7 (some 5) 50 40 db admitted company_limited company_fits

assert_can_store-within_user_example :
    used_of (
      user_row 7 5 (
        apply_usage_delta settings 7
          (some 5)
          (sub_ℕ 50 40)
          (assert_can_store settings 7 (some 5) 50 40 db).1))
    ≤ 50
assert_can_store-within_user_example =
    assert_can_store-within_user settings 7 5 50 50 40 db admitted user_limited (omega arith)
      (omega arith)

apply_usage_delta-moves_example :
    let before = company_row settings 7 db in
    (company_row settings 7 (apply_usage_delta settings 7 (some 5) (pos 9) db)
      ≡ record before { used_bytes = before.used_bytes + 9 })
    × (company_row settings 7 (apply_usage_delta settings 7 (some 5) (negsuc 9) db)
        ≡ record before { used_bytes = before.used_bytes - 10 })
    × (company_row settings 8 (apply_usage_delta settings 7 (some 5) (pos 9) db)
        ≡ company_row settings 8 db)
    × (company_row settings 8 (apply_usage_delta settings 7 (some 5) (negsuc 9) db)
        ≡ company_row settings 8 db)
apply_usage_delta-moves_example = apply_usage_delta-moves settings 7 8 (some 5) 9 db (omega arith)
