-- ===== src/Storage/Quotas/Limits.antt =====
-- `assert_can_store`, followed by the charge, against the limits of a company and of a user.
use storage_service.Prelude.{
  ℕ, ◌-◌, ◌≤◌, ◌≡◌, ◌≢◌, ◌∙◌, ap, false, ◌⊎◌, inl, inr, List, Option, some, arith,
}
use storage_service.Prelude.Int.{sub_ℕ}
use storage_service.Prelude.Outcome.{ok}
use storage_service.Storage.Models.{CompanyQuota, UserQuota, Db}
use storage_service.Storage.Quotas.{
  QuotaSettings, get_or_create_company_quota, resolve_user_limit, company_overflow, user_overflow,
  used_of, apply_usage_delta, assert_can_store,
}
use storage_service.Storage.Quotas.Counters.{
  user_row, limit_of, limit_row, created-user_quotas, user_row-apply_usage_delta, company_row,
  company_row-created, company_row-apply_usage_delta,
}

admitted_company :
    (settings : QuotaSettings) (c : ℕ) (u : Option ℕ) (more less : ℕ) (db : Db)
    → (assert_can_store settings c u more less db).0 ≡ ok tt
    → (more ≤ less) ⊎ (company_overflow (company_row settings c db) (more - less) ≡ false)
unfolding assert_can_store
admitted_company settings c u more less db h = ground arith

pub assert_db :
    (settings : QuotaSettings) (c : ℕ) (u : Option ℕ) (more less : ℕ) (db : Db)
    → ((assert_can_store settings c u more less db).1 ≡ db)
      ⊎ ((assert_can_store settings c u more less db).1
          ≡ (get_or_create_company_quota settings c db).1)
unfolding assert_can_store
assert_db settings c u more less db = ground arith

pub company_row-assert :
    (settings : QuotaSettings) (c : ℕ) (u : Option ℕ) (more less : ℕ) (db : Db)
    → company_row settings c (assert_can_store settings c u more less db).1
      ≡ company_row settings c db
company_row-assert settings c u more less db = elim (assert_db settings c u more less db) [
  | inl same ↦ ap (company_row settings c) same
  | inr made ↦ ap (company_row settings c) made ∙ company_row-created settings c db
]

-- Where a store of `more` bytes that replaces `less` is admitted, charging it leaves a company
-- that has a limit, other than 0, and was within it, within its limit.
pub assert_can_store-within :
    (settings : QuotaSettings) (c : ℕ) (u : Option ℕ) (more less : ℕ) (db : Db)
    → (assert_can_store settings c u more less db).0 ≡ ok tt
    → (company_row settings c db).max_bytes ≢ 0
    → (company_row settings c db).used_bytes ≤ (company_row settings c db).max_bytes
    → let after = company_row settings c (
        apply_usage_delta settings c u
          (sub_ℕ more less)
          (assert_can_store settings c u more less db).1) in
      after.used_bytes ≤ after.max_bytes
assert_can_store-within settings c u more less db h limited fits =
    rw
      (
        company_row-apply_usage_delta settings c u (sub_ℕ more less)
            (assert_can_store settings c u more less db).1,
        company_row-assert settings c u more less db,
      )
      (ground (arith, admitted_company settings c u more less db h))

user_quotas-assert :
    (settings : QuotaSettings) (c : ℕ) (u : Option ℕ) (more less : ℕ) (db : Db)
    → (assert_can_store settings c u more less db).1.user_quotas ≡ db.user_quotas
user_quotas-assert settings c u more less db = elim (assert_db settings c u more less db) [
  | inl same ↦ ap (λ (d : Db). d.user_quotas) same
  | inr made ↦ ap (λ (d : Db). d.user_quotas) made ∙ created-user_quotas settings c db
]

admitted_user :
    (settings : QuotaSettings) (c u m : ℕ) (more less : ℕ) (db : Db)
    → (assert_can_store settings c (some u) more less db).0 ≡ ok tt
    → limit_of settings c u db ≡ some m
    → (more ≤ less) ⊎ (user_overflow (some m) (used_of (user_row c u db)) (more - less) ≡ false)
unfolding assert_can_store
admitted_user settings c u m more less db h limited =
    ground (arith, created-user_quotas settings c db, limit_row settings c u db)

limit_of-assert :
    (settings : QuotaSettings) (c u : ℕ) (more less : ℕ) (db : Db)
    → limit_of settings c u (assert_can_store settings c (some u) more less db).1
      ≡ limit_of settings c u db
limit_of-assert settings c u more less db =
    let after = (assert_can_store settings c (some u) more less db).1 in
    ap (λ (q : CompanyQuota). (resolve_user_limit q (some u) after.user_quotas).0)
      (company_row-assert settings c (some u) more less db)
    ∙ ap
        (λ (rows : List UserQuota).
          (resolve_user_limit (company_row settings c db) (some u) rows).0)
        (user_quotas-assert settings c (some u) more less db)

-- Where such a store is admitted, charging it leaves a user who has a limit, other than 0, and was
-- within it, within that limit.
pub assert_can_store-within_user :
    (settings : QuotaSettings) (c u m : ℕ) (more less : ℕ) (db : Db)
    → (assert_can_store settings c (some u) more less db).0 ≡ ok tt
    → limit_of settings c u db ≡ some m
    → m ≢ 0
    → used_of (user_row c u db) ≤ m
    → used_of (
        user_row c u (
          apply_usage_delta settings c
            (some u)
            (sub_ℕ more less)
            (assert_can_store settings c (some u) more less db).1))
      ≤ m
assert_can_store-within_user settings c u m more less db h limited positive fits =
    rw
      (
        user_row-apply_usage_delta settings c u m (sub_ℕ more less)
            (assert_can_store settings c (some u) more less db).1
            (limit_of-assert settings c u more less db ∙ limited),
        user_quotas-assert settings c (some u) more less db,
      )
      (ground (arith, admitted_user settings c u m more less db h limited))
