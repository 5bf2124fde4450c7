-- ===== src/Storage/Objects/Balance.antt =====
-- The usage counter of a company against the sizes of its objects, and `delete_object`.
use storage_service.Prelude.{
  ℕ, ◌+◌, ◌≤◌, ◌≡◌, ◌≢◌, refl, ◌∙◌, ap, true, not, List, [], ◌∷◌, Option, none, some, ◌==◌, ==_iff,
  arith, if◌then◌else◌, keep, Bool-cases, inl, inr, Option-cases, ==_refl,
}
use storage_service.Prelude.Int.{ℤ, sub_ℕ}
use storage_service.Prelude.Outcome.{}
use storage_service.Storage.Models.{CompanyQuota, UserQuota, StorageObject, Db}
use storage_service.Storage.Quotas.{
  QuotaSettings, charge_rows, is_zero, get_or_create_company_quota, add_clamped, apply_usage_delta,
  apply_user_delta,
}
use storage_service.Storage.Quotas.Counters.{
  company_row, company_row-same, company_row-apply_usage_delta, company_row-apply_usage_delta_ne,
}
use storage_service.Storage.Objects.{Platform, delete_object, remove_object}

-- The bytes of the objects of a company.
abbrev pub company_bytes : ℕ → List StorageObject → ℕ
company_bytes c [] = 0
company_bytes c (obj ∷ rest) = (if obj.company_id == c then obj.size else 0) + company_bytes c rest

abbrev pub Balanced : Platform → ℕ → Db → Type 0
Balanced platform c db =
    (company_row platform.quota_settings c db).used_bytes ≡ company_bytes c db.objects

pub company_bytes-split :
    (c id : ℕ) (objs : List StorageObject)
    → company_bytes c objs
      ≡ company_bytes c (keep (λ o. o.id == id) objs)
        + company_bytes c (keep (λ o. not (o.id == id)) objs)
company_bytes-split c id [] = refl
company_bytes-split c id (o ∷ rest) = ground (arith, company_bytes-split c id rest)

clamped-exact :
    (used more less : ℕ) → less ≤ used → add_clamped used (sub_ℕ more less) + less ≡ used + more
clamped-exact used more less within = ground arith

-- Charging a company moves its counter alone.
charged :
    (platform : Platform) (c d more less : ℕ) (u : Option ℕ) (db : Db)
    → ((d == c) ≡ true → less ≤ (company_row platform.quota_settings c db).used_bytes)
    → (company_row platform.quota_settings c
          (apply_usage_delta platform.quota_settings d u (sub_ℕ more less) db)).used_bytes
        + (if d == c then less else 0)
      ≡ (company_row platform.quota_settings c db).used_bytes + (if d == c then more else 0)
charged platform c d more less u db within = elim (Bool-cases (d == c)) [
  | inl same ↦
      let e : d ≡ c = (==_iff d c).0 same in
      let fits = within same in
      rw
        (
          e,
          company_row-apply_usage_delta platform.quota_settings c u (sub_ℕ more less) db,
          ==_refl c,
        )
        (clamped-exact (company_row platform.quota_settings c db).used_bytes more less fits)
  | inr other ↦
      let ne : d ≢ c = λ e. absurd (ground (arith, e, other, ==_refl c)) in
      rw (
        other,
        company_row-apply_usage_delta_ne platform.quota_settings d c u (sub_ℕ more less) db ne,
      )
]

charge_rows-objects :
    (c u : ℕ) (delta : ℤ) (db : Db) (rows : Option (List UserQuota))
    → (charge_rows c u delta db rows).objects ≡ db.objects
charge_rows-objects c u delta db none = refl
charge_rows-objects c u delta db (some rows) = refl

user_delta-objects :
    (c : ℕ) (company : CompanyQuota) (u : Option ℕ) (delta : ℤ) (db : Db)
    → (apply_user_delta c company u delta db).objects ≡ db.objects
unfolding apply_user_delta
user_delta-objects c company none delta db = refl
user_delta-objects c company (some u) delta db = charge_rows-objects c u delta db _

pub created-objects :
    (settings : QuotaSettings) (c : ℕ) (db : Db)
    → (get_or_create_company_quota settings c db).1.objects ≡ db.objects
unfolding get_or_create_company_quota
created-objects settings c db = ground arith

apply_usage_delta-objects :
    (settings : QuotaSettings) (c : ℕ) (u : Option ℕ) (delta : ℤ) (db : Db)
    → (apply_usage_delta settings c u delta db).objects ≡ db.objects
unfolding apply_usage_delta
apply_usage_delta-objects settings c u delta db = elim (Bool-cases (is_zero delta)) [
  | inl still ↦ rw still
  | inr moves ↦ rw moves (user_delta-objects c _ u delta _ ∙ created-objects settings c db)
]

-- The counter after a charge, where the objects have changed by as much.
pub charge-Balanced :
    (platform : Platform) (c d more less : ℕ) (u : Option ℕ) (db : Db) (before : ℕ)
    → (company_row platform.quota_settings c db).used_bytes ≡ before
    → before + (if d == c then more else 0)
      ≡ company_bytes c db.objects + (if d == c then less else 0)
    → ((d == c) ≡ true → less ≤ before)
    → Balanced platform c (apply_usage_delta platform.quota_settings d u (sub_ℕ more less) db)
charge-Balanced platform c d more less u db before used changed within = omega (
  arith,
  charged platform c d more less u db (λ e. rw used (within e)),
  ap (company_bytes c) (apply_usage_delta-objects platform.quota_settings d u (sub_ℕ more less) db),
  used,
  changed,
)

-- The row that `remove_object` takes away, and what is left.
removed_bytes :
    (c : ℕ) (obj : StorageObject) (objs : List StorageObject)
    → keep (λ o. o.id == obj.id) objs ≡ obj ∷ []
    → company_bytes c objs
      ≡ company_bytes c (keep (λ o. not (o.id == obj.id)) objs)
        + (if obj.company_id == c then obj.size else 0)
removed_bytes c obj objs one =
    omega (arith, company_bytes-split c obj.id objs, ap (company_bytes c) one)

-- Deleting an object, whose row is the only one with its key, keeps every company's counter
-- equal to the sum of the sizes of its objects, also where the deletion fails.
pub delete_object-Balanced :
    (platform : Platform) (c : ℕ) (obj : StorageObject) (db : Db)
    → keep (λ o. o.id == obj.id) db.objects ≡ obj ∷ []
    → Balanced platform c db
    → Balanced platform c (delete_object platform obj db).1
unfolding delete_object
delete_object-Balanced platform c obj db one balanced =
    elim (Option-cases (platform.delete_storage_key obj.storage_key)) [
      | inl fine ↦ rw fine (
          charge-Balanced platform c obj.company_id 0 obj.size obj.owner_id
            (remove_object obj.id db).1 (company_bytes c db.objects)
            (ap (λ (q : CompanyQuota). q.used_bytes)
                (company_row-same platform.quota_settings c (remove_object obj.id db).1 db refl)
              ∙ balanced)
            (ground (arith, removed_bytes c obj db.objects one))
            (λ e. ground (arith, e, removed_bytes c obj db.objects one)))
      | inr (e, failed) ↦ rw failed balanced
    ]
