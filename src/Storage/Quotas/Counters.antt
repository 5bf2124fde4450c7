-- ===== src/Storage/Quotas/Counters.antt =====
-- What `apply_usage_delta` does to each counter.
use storage_service.Prelude.{
  ℕ, suc, ◌+◌, ◌-◌, ◌≡◌, ◌≢◌, refl, sym, ◌∙◌, ap, true, false, inl, inr, List, [], ◌∷◌, ◌++◌,
  Option, none, some, arith, ==_iff, if◌then◌else◌, find, update_where, find-update_where,
  find-update_ne, find-append, Option-cases, Bool-cases, map_option, find_sound, is_some,
}
use storage_service.Prelude.Int.{ℤ, pos, negsuc}
use storage_service.Storage.Models.{CompanyQuota, UserQuota, Db}
use storage_service.Storage.Quotas.{
  QuotaSettings, of_company, of_user, default_company_quota, get_or_create_company_quota,
  resolve_user_limit, used_of, per_user_default, user_limit, add_clamped, is_zero, charge_company,
  charge_user, tracked, charge_rows, apply_user_delta, apply_usage_delta,
}

-- The company's row, as `get_or_create_company_quota` finds or would make it.
abbrev pub company_row : QuotaSettings → ℕ → Db → CompanyQuota
company_row settings company_id db = (get_or_create_company_quota settings company_id db).0

charge_rows-company :
    (c u : ℕ) (delta : ℤ) (db : Db) (rows : Option (List UserQuota))
    → (charge_rows c u delta db rows).company_quotas ≡ db.company_quotas
charge_rows-company c u delta db none = refl
charge_rows-company c u delta db (some rows) = refl

apply_user_delta-company :
    (c : ℕ) (company : CompanyQuota) (u : Option ℕ) (delta : ℤ) (db : Db)
    → (apply_user_delta c company u delta db).company_quotas ≡ db.company_quotas
unfolding apply_user_delta
apply_user_delta-company c company none delta db = refl
apply_user_delta-company c company (some u) delta db = charge_rows-company c u delta db _

row_of : QuotaSettings → ℕ → Option CompanyQuota → CompanyQuota
row_of settings c none = default_company_quota settings c
row_of settings c (some q) = q

company_row-find :
    (settings : QuotaSettings) (c : ℕ) (db : Db)
    → company_row settings c db ≡ row_of settings c (find (of_company c) db.company_quotas)
unfolding get_or_create_company_quota row_of
company_row-find settings c db = ground arith

-- The table after the row is there.
created_rows :
    (settings : QuotaSettings) (c : ℕ) (db : Db)
    → find (of_company c) (get_or_create_company_quota settings c db).1.company_quotas
      ≡ some (company_row settings c db)
unfolding get_or_create_company_quota
created_rows settings c db =
    ground
      (arith, find-append (of_company c) db.company_quotas (default_company_quota settings c ∷ []))

charge_zero : (delta : ℤ) (q : CompanyQuota) → is_zero delta ≡ true → charge_company delta q ≡ q
charge_zero (pos n) q h = ground arith
charge_zero (negsuc n) q h = cc

-- Only the table of company quotas decides a company's row.
pub company_row-same :
    (settings : QuotaSettings) (c : ℕ) (db db' : Db)
    → db.company_quotas ≡ db'.company_quotas
    → company_row settings c db ≡ company_row settings c db'
company_row-same settings c db db' e =
    company_row-find settings c db
    ∙ ap (λ rows. row_of settings c (find (of_company c) rows)) e
    ∙ sym (company_row-find settings c db')

-- The company's counter moves by the delta, and stops at 0.
pub company_row-apply_usage_delta :
    (settings : QuotaSettings) (c : ℕ) (u : Option ℕ) (delta : ℤ) (db : Db)
    → company_row settings c (apply_usage_delta settings c u delta db)
      ≡ charge_company delta (company_row settings c db)
unfolding apply_usage_delta row_of
company_row-apply_usage_delta settings c u delta db = elim (Bool-cases (is_zero delta)) [
  | inl zero_delta ↦ rw zero_delta (sym (charge_zero delta (company_row settings c db) zero_delta))
  | inr moves ↦ rw moves (
      company_row-find settings c _
      ∙ ap (row_of settings c) (
          ap (find (of_company c)) (apply_user_delta-company c _ u delta _)
          ∙ find-update_where (of_company c) (charge_company delta)
              (get_or_create_company_quota settings c db).1.company_quotas (λ q e. e)
          ∙ ap (map_option (charge_company delta)) (created_rows settings c db)))
]

of_company-ne :
    (c d : ℕ) → c ≢ d → (q : CompanyQuota) → of_company d q ≡ true → of_company c q ≡ false
of_company-ne c d h q e = ground arith

others_rows :
    (settings : QuotaSettings) (c d : ℕ) (db : Db)
    → c ≢ d
    → find (of_company d) (get_or_create_company_quota settings c db).1.company_quotas
      ≡ find (of_company d) db.company_quotas
unfolding get_or_create_company_quota
others_rows settings c d db h =
    ground
      (arith, find-append (of_company d) db.company_quotas (default_company_quota settings c ∷ []))

-- The counters of other companies do not move.
pub company_row-apply_usage_delta_ne :
    (settings : QuotaSettings) (c d : ℕ) (u : Option ℕ) (delta : ℤ) (db : Db)
    → c ≢ d
    → company_row settings d (apply_usage_delta settings c u delta db) ≡ company_row settings d db
unfolding apply_usage_delta
company_row-apply_usage_delta_ne settings c d u delta db h = elim (Bool-cases (is_zero delta)) [
  | inl zero_delta ↦ rw zero_delta
  | inr moves ↦ rw moves (
      company_row-find settings d _
      ∙ ap (row_of settings d) (
          ap (find (of_company d)) (apply_user_delta-company c _ u delta _)
          ∙ find-update_ne (of_company c) (of_company d) (charge_company delta)
              (get_or_create_company_quota settings c db).1.company_quotas (of_company-ne c d h)
              (of_company-ne d c (λ e. h (sym e)))
          ∙ others_rows settings c d db h)
      ∙ sym (company_row-find settings d db))
]

-- `apply_usage_delta` raises the company's counter by a positive delta and lowers it by a negative
-- one, at most to 0, and changes nothing else in the company's row, whether the row was there or had
-- to be made; the rows of other companies it leaves alone.
pub apply_usage_delta-moves :
    (settings : QuotaSettings) (c d : ℕ) (u : Option ℕ) (n : ℕ) (db : Db)
    → c ≢ d
    → let before = company_row settings c db in
      (company_row settings c (apply_usage_delta settings c u (pos n) db)
        ≡ record before { used_bytes = before.used_bytes + n })
      × (company_row settings c (apply_usage_delta settings c u (negsuc n) db)
          ≡ record before { used_bytes = before.used_bytes - suc n })
      × (company_row settings d (apply_usage_delta settings c u (pos n) db)
          ≡ company_row settings d db)
      × (company_row settings d (apply_usage_delta settings c u (negsuc n) db)
          ≡ company_row settings d db)
apply_usage_delta-moves settings c d u n db other =
    let before = company_row settings c db in
    let below : before.used_bytes - (n + 1) ≡ before.used_bytes - suc n = omega arith in
    (
      company_row-apply_usage_delta settings c u (pos n) db,
      company_row-apply_usage_delta settings c u (negsuc n) db
          ∙ ap (λ m. record before { used_bytes = m }) below,
      company_row-apply_usage_delta_ne settings c d u (pos n) db other,
      company_row-apply_usage_delta_ne settings c d u (negsuc n) db other,
    )

-- Making the row is seen by nothing that reads it.
pub company_row-created :
    (settings : QuotaSettings) (c : ℕ) (db : Db)
    → company_row settings c (get_or_create_company_quota settings c db).1
      ≡ company_row settings c db
unfolding row_of
company_row-created settings c db =
    company_row-find settings c (get_or_create_company_quota settings c db).1
    ∙ ap (row_of settings c) (created_rows settings c db)

row_of-company_id :
    (settings : QuotaSettings) (c : ℕ) (found : Option CompanyQuota)
    → ((q : CompanyQuota) → found ≡ some q → of_company c q ≡ true)
    → (row_of settings c found).company_id ≡ c
unfolding row_of
row_of-company_id settings c none h = refl
row_of-company_id settings c (some q) h = (==_iff q.company_id c).0 (h q refl)

pub company_row-company_id :
    (settings : QuotaSettings) (c : ℕ) (db : Db) → (company_row settings c db).company_id ≡ c
company_row-company_id settings c db =
    ap (λ (q : CompanyQuota). q.company_id) (company_row-find settings c db)
    ∙ row_of-company_id settings c (find (of_company c) db.company_quotas)
        (λ q. find_sound (of_company c) db.company_quotas q)

pub created-user_quotas :
    (settings : QuotaSettings) (c : ℕ) (db : Db)
    → (get_or_create_company_quota settings c db).1.user_quotas ≡ db.user_quotas
unfolding get_or_create_company_quota
created-user_quotas settings c db = ground arith

-- A user's row, where there is one or a limit makes one, moves by the delta.
abbrev pub user_row : ℕ → ℕ → Db → Option UserQuota
user_row c u db = find (of_user c u) db.user_quotas

of_user_self :
    (c u m : ℕ)
    → of_user c u (record { company_id = c; user_id = u; max_bytes = m; used_bytes = 0 }) ≡ true
of_user_self c u m = ground arith

charged_row :
    (c u : ℕ) (delta : ℤ) (rows : List UserQuota)
    → find (of_user c u) (update_where (of_user c u) (charge_user delta) rows)
      ≡ map_option (charge_user delta) (find (of_user c u) rows)
charged_row c u delta rows = find-update_where (of_user c u) (charge_user delta) rows (λ q e. e)

absent_user :
    (c u : ℕ) (delta : ℤ) (db : Db) (limit : Option ℕ)
    → user_row c u db ≡ none
    → used_of (user_row c u (charge_rows c u delta db (tracked c u (limit, none) db.user_quotas)))
      ≡ (if is_some limit then add_clamped 0 delta else 0)
absent_user c u delta db none absent = rw absent
absent_user c u delta db (some m) absent =
    let row : UserQuota = record { company_id = c; user_id = u; max_bytes = m; used_bytes = 0 } in
    let made : find (of_user c u) (db.user_quotas ++ row ∷ []) ≡ some row =
      find-append (of_user c u) db.user_quotas (row ∷ []) ∙ rw (absent, of_user_self c u m) in
    ap used_of (
      charged_row c u delta (db.user_quotas ++ row ∷ []) ∙ ap (map_option (charge_user delta)) made)

user_row-apply_user_delta :
    (c u : ℕ) (company : CompanyQuota) (delta : ℤ) (db : Db)
    → company.company_id ≡ c
    → used_of (user_row c u (apply_user_delta c company (some u) delta db)) ≡ (
        if is_some (resolve_user_limit company (some u) db.user_quotas).0
        then add_clamped (used_of (user_row c u db)) delta
        else 0)
unfolding apply_user_delta resolve_user_limit
user_row-apply_user_delta c u company delta db e =
    elim (Option-cases (find (of_user c u) db.user_quotas)) [
      | inl absent ↦
          rw (e, absent)
            (absent_user c u delta db (per_user_default company.max_bytes_per_user) absent)
      | inr (q, found) ↦ rw (e, found, charged_row c u delta db.user_quotas, found)
    ]

add_clamped_zero : (used : ℕ) (delta : ℤ) → is_zero delta ≡ true → used ≡ add_clamped used delta
add_clamped_zero used (pos n) h = ground arith
add_clamped_zero used (negsuc n) h = cc

-- The limit of a user, as `resolve_user_limit` finds it.
abbrev pub limit_of : QuotaSettings → ℕ → ℕ → Db → Option ℕ
limit_of settings c u db =
    (resolve_user_limit (company_row settings c db) (some u) db.user_quotas).0

-- The counter of a user who has a limit moves by the delta, and stops at 0.
pub user_row-apply_usage_delta :
    (settings : QuotaSettings) (c u m : ℕ) (delta : ℤ) (db : Db)
    → limit_of settings c u db ≡ some m
    → used_of (user_row c u (apply_usage_delta settings c (some u) delta db))
      ≡ add_clamped (used_of (user_row c u db)) delta
unfolding apply_usage_delta
user_row-apply_usage_delta settings c u m delta db limited = elim (Bool-cases (is_zero delta)) [
  | inl zero_delta ↦ rw zero_delta (add_clamped_zero (used_of (user_row c u db)) delta zero_delta)
  | inr moves ↦ rw moves (
      user_row-apply_user_delta c u (company_row settings c db) delta _
        (company_row-company_id settings c db)
      ∙ rw (created-user_quotas settings c db, limited))
]

-- The row that goes with the limit is the user's row.
pub limit_row :
    (settings : QuotaSettings) (c u : ℕ) (db : Db)
    → used_of (resolve_user_limit (company_row settings c db) (some u) db.user_quotas).1
      ≡ used_of (user_row c u db)
unfolding resolve_user_limit
limit_row settings c u db = rw (company_row-company_id settings c db) (row_kept (user_row c u db))
  where
    row_kept :
        (o : Option UserQuota) → used_of (user_limit (company_row settings c db) o).1 ≡ used_of o
    row_kept none = refl
    row_kept (some q) = refl
