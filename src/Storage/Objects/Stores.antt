-- ===== src/Storage/Objects/Stores.antt =====
-- What the writes of an upload do to the usage counter of a company.
use storage_service.Prelude.{
  ℕ, ◌+◌, ◌≡◌, refl, sym, subst, ◌∙◌, ap, Bool, false, List, [], ◌∷◌, ◌++◌, map, Option, none, some,
  ◌==◌, ==_refl, arith, keep, update_where, find, inl, inr, length, Option-cases,
}
use storage_service.Prelude.Int.{sub_ℕ}
use storage_service.Prelude.Outcome.{Outcome, ok, raised, Ensures}
use storage_service.Text.{Text}
use storage_service.Storage.Models.{Bucket, StorageObject, CompanyQuota, Db}
use storage_service.Storage.Defaults.{
  apply_default_private_on_create, ensure_default_private_access,
}
use storage_service.Storage.Resolve.{object_named}
use storage_service.Storage.Quotas.{QuotaExceeded, apply_usage_delta, assert_can_store}
use storage_service.Storage.Quotas.Counters.{company_row, company_row-same}
use storage_service.Storage.Quotas.Limits.{assert_db, company_row-assert}
use storage_service.Storage.Objects.{
  Platform, Blob, save_object, insert_object, make_private, quota_outcome, admit, overwrite_object,
  overwritten, store_object,
}
use storage_service.Storage.Objects.Balance.{
  company_bytes, Balanced, company_bytes-split, charge-Balanced, created-objects,
}

updated_bytes :
    (c : ℕ) (p : StorageObject → Bool) (y : StorageObject) (objs : List StorageObject)
    → company_bytes c (update_where p (λ o. y) objs) + company_bytes c (keep p objs)
      ≡ company_bytes c objs + company_bytes c (map (λ o. y) (keep p objs))
updated_bytes c p y [] = refl
updated_bytes c p y (o ∷ rest) = ground (arith, updated_bytes c p y rest)

appended_bytes :
    (c : ℕ) (objs : List StorageObject) (y : StorageObject)
    → company_bytes c (objs ++ y ∷ []) ≡ company_bytes c objs + company_bytes c (y ∷ [])
appended_bytes c [] y = omega arith
appended_bytes c (o ∷ rest) y = ground (arith, appended_bytes c rest y)

quota_outcome-db :
    (r : Outcome QuotaExceeded (Unit {0}) × Db) (a : Unit {0}) (t : Db)
    → quota_outcome r ≡ (ok a, t)
    → r.1 ≡ t
quota_outcome-db (ok u, db) a t e = ap (λ p. p.1) e
quota_outcome-db (raised x, db) a t e = cc

private-tables :
    (fresh : ℕ → ℕ) (db : Db) (now : ℕ) (obj : StorageObject) (u : Option ℕ)
    → let after = apply_default_private_on_create fresh db now obj u false in
      (after.company_quotas ≡ db.company_quotas) × (after.objects ≡ db.objects)
unfolding apply_default_private_on_create ensure_default_private_access
private-tables fresh db now obj u = ground arith

module _ (platform : Platform) (bucket : Bucket) where
  -- An object that an upload overwrites: the one row with its key, of the bucket's company.
  abbrev pub Fits : Option StorageObject → Db → Type 0
  Fits none db = Unit
  Fits (some o) db =
      (keep (λ x. x.id == o.id) db.objects ≡ o ∷ []) × (o.company_id ≡ bucket.company_id)

  -- The primary key of an object of the bucket is unique, and its company is the bucket's.
  abbrev pub Keyed : Db → Type 0
  Keyed db =
      (name : Text) (o : StorageObject)
      → find (object_named bucket.id name) db.objects ≡ some o
      → (keep (λ x. x.id == o.id) db.objects ≡ o ∷ []) × (o.company_id ≡ bucket.company_id)

  abbrev pub Ready : Option StorageObject → Db → Type 0
  Ready existing db = Balanced platform bucket.company_id db × Fits existing db

  pub found-Fits :
      (name : Text) (db : Db) → Keyed db → Fits (find (object_named bucket.id name) db.objects) db
  found-Fits name db keyed = fits (find (object_named bucket.id name) db.objects) (keyed name)
    where
      fits :
          (o : Option StorageObject)
          → ((x : StorageObject)
              → o ≡ some x
              → (keep (λ y. y.id == x.id) db.objects ≡ x ∷ []) × (x.company_id ≡ bucket.company_id))
          → Fits o db
      fits none h = tt
      fits (some x) h = h x refl

  Ready-same :
      (existing : Option StorageObject) (db after : Db)
      → (company_row platform.quota_settings bucket.company_id after).used_bytes
        ≡ (company_row platform.quota_settings bucket.company_id db).used_bytes
      → after.objects ≡ db.objects
      → Ready existing db
      → Ready existing after
  Ready-same none db after row objs (balanced, fits) =
      (row ∙ balanced ∙ sym (ap (company_bytes bucket.company_id) objs), tt)
  Ready-same (some o) db after row objs (balanced, (one, same)) = (
    row ∙ balanced ∙ sym (ap (company_bytes bucket.company_id) objs),
    (ap (keep (λ x. x.id == o.id)) objs ∙ one, same),
  )

  pub admitted :
      (existing : Option StorageObject) (u : Option ℕ) (more less : ℕ)
      → Ensures
          (Ready existing)
          (admit platform bucket.company_id u more less)
          (λ _. Ready existing)
  admitted existing u more less s t a ready e =
      let settings = platform.quota_settings in
      let after = (assert_can_store settings bucket.company_id u more less s).1 in
      subst (Ready existing)
        (quota_outcome-db (assert_can_store settings bucket.company_id u more less s) a t e)
        (Ready-same existing s after
          (ap (λ (q : CompanyQuota). q.used_bytes)
            (company_row-assert settings bucket.company_id u more less s))
          (elim (assert_db settings bucket.company_id u more less s) [
            | inl same ↦ ap (λ (d : Db). d.objects) same
            | inr made ↦
                ap (λ (d : Db). d.objects) made ∙ created-objects settings bucket.company_id s
          ])
          ready)

  overwritten-Balanced :
      (o : StorageObject) (bytes : Blob) (u : Option ℕ) (mime : Text)
      (metadata : List (Text × Text)) (s : Db)
      → Balanced platform bucket.company_id s
      → keep (λ x. x.id == o.id) s.objects ≡ o ∷ []
      → o.company_id ≡ bucket.company_id
      → Balanced platform bucket.company_id (
          apply_usage_delta platform.quota_settings bucket.company_id u
            (sub_ℕ (length bytes) o.size)
            (save_object (overwritten platform o bytes u mime metadata) s).1)
  overwritten-Balanced o bytes u mime metadata s balanced one same =
      let c = bucket.company_id in
      let y = overwritten platform o bytes u mime metadata in
      charge-Balanced platform c c (length bytes) o.size u (save_object y s).1
        (company_bytes c s.objects)
        (ap (λ (q : CompanyQuota). q.used_bytes)
            (company_row-same platform.quota_settings c (save_object y s).1 s refl)
          ∙ balanced)
        (ground (
          arith,
          same,
          ==_refl c,
          updated_bytes c (λ x. x.id == o.id) y s.objects,
          ap (company_bytes c) one,
          ap (λ l. company_bytes c (map (λ x. y) l)) one,
        ))
        (λ _.
          ground (
            arith,
            same,
            ==_refl c,
            company_bytes-split c o.id s.objects,
            ap (company_bytes c) one,
          ))

  pub overwrites :
      (o : StorageObject) (bytes : Blob) (u : Option ℕ) (mime : Text)
      (metadata : List (Text × Text))
      → Ensures
          (Ready (some o))
          (overwrite_object platform bucket o bytes u mime metadata)
          (λ _. Balanced platform bucket.company_id)
  overwrites o bytes u mime metadata s t a (balanced, (one, same)) e =
      elim (Option-cases (platform.save_blob o.storage_key bytes)) [
        | inl saved ↦
            subst (Balanced platform bucket.company_id) (ap (λ r. r.1) (rw saved at e))
              (overwritten-Balanced o bytes u mime metadata s balanced one same)
        | inr (x, failed) ↦ absurd (let f = rw failed at e in cc)
      ]

  stored-Balanced :
      (fresh : ℕ → ℕ) (now : ℕ) (obj : StorageObject) (s : Db)
      → Balanced platform bucket.company_id s
      → obj.company_id ≡ bucket.company_id
      → Balanced platform bucket.company_id
          (make_private fresh now obj obj.owner_id (
            apply_usage_delta platform.quota_settings bucket.company_id obj.owner_id
              (sub_ℕ obj.size 0)
              (insert_object obj s).1)).1
  stored-Balanced fresh now obj s balanced same =
      let c = bucket.company_id in
      let settings = platform.quota_settings in
      let inserted = (insert_object obj s).1 in
      let charged = apply_usage_delta settings c obj.owner_id (sub_ℕ obj.size 0) inserted in
      let (rows, objs) = private-tables (λ i. fresh (i + 1)) charged now obj obj.owner_id in
      ap (λ (q : CompanyQuota). q.used_bytes) (company_row-same settings c _ charged rows)
      ∙ charge-Balanced platform c c obj.size 0 obj.owner_id inserted (company_bytes c s.objects)
          (ap (λ (q : CompanyQuota). q.used_bytes) (company_row-same settings c inserted s refl)
            ∙ balanced)
          (ground (arith, same, ==_refl c, appended_bytes c s.objects obj)) (λ _. omega arith)
      ∙ sym (ap (company_bytes c) objs)

  pub stores :
      (fresh : ℕ → ℕ) (now : ℕ) (obj : StorageObject) (bytes : Blob)
      → obj.company_id ≡ bucket.company_id
      → Ensures
          (Ready none)
          (store_object platform fresh now bucket obj bytes)
          (λ _. Balanced platform bucket.company_id)
  stores fresh now obj bytes same s t a (balanced, fits) e =
      elim (Option-cases (platform.save_blob obj.storage_key bytes)) [
        | inl saved ↦
            subst (Balanced platform bucket.company_id) (ap (λ r. r.1) (rw saved at e))
              (stored-Balanced fresh now obj s balanced same)
        | inr (x, failed) ↦ absurd (let f = rw failed at e in cc)
      ]
