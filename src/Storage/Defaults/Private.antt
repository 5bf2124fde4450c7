-- ===== src/Storage/Defaults/Private.antt =====
-- What the two grants of a new private file or folder do to access.
use storage_service.Prelude.{
  ℕ, ◌<◌, ◌≡◌, refl, sym, ◌∙◌, ap, Bool, true, false, List, [], ◌∷◌, ◌++◌, Option, none, some, ◌==◌,
  ==_refl, arith, if◌then◌else◌, keep, All, All-map, All-append, keep-append, append_assoc,
  Bool-cases, inl, inr,
}
use storage_service.Text.{Text, text_eq, text_eq_refl, text_eq→eq, is_empty}
use storage_service.Text.Decimal.{str, str-injective}
use storage_service.Storage.Models.{
  Bucket, StorageObject, ResourceType, Permission, StorageAccessGrant, StoragePrincipal, Db,
}
use storage_service.Storage.Paths.{normalize_path}
use storage_service.Storage.Access.{
  active_grants, is_active_grant, grant_applies, matching_grants, subject_matches,
  subject_type_matches, resource_matches_grant, resource_type_matches, resource_score,
  grant_specificity, pair_lt, evaluate_access, is_member, required_permission, or_default,
}
use storage_service.Storage.Access.Ranking.{decisive, decisive-last}
use storage_service.Storage.Access.Spec.{evaluate_access-decision}
use storage_service.Storage.Access.Decision.{verdict}
use storage_service.Storage.Inherited.{bucket_name, nearest_ancestor_folder_grants}
use storage_service.Storage.Defaults.{
  same_resource_type, guarded_path, resource_grants_exist, company_deny, creator_allow,
  private_pair, ensure_default_private_access,
}

-- The decimal texts of two numbers agree exactly when the numbers do.
text_eq-str : (u v : ℕ) → text_eq (str u) (str v) ≡ (u == v)
text_eq-str u v = elim (Bool-cases (text_eq (str u) (str v))) [
  | inl e ↦
      let q : u ≡ v = str-injective u v (text_eq→eq (str u) (str v) e) in rw (e, q) (ground arith)
  | inr e ↦ elim (Bool-cases (u == v)) [
    | inl same ↦
        let q : u ≡ v = ground arith in
        absurd (
          let f = text_eq_refl (str v) in ground (arith, ap (λ (n : ℕ). text_eq (str n) (str v)) q))
    | inr differs ↦ rw (e, differs)
  ]
]

module _ (db : Db) (now : ℕ) (user_id : ℕ) (target : StorageObject) (resource_type : ResourceType)
    (bucket : Bucket) (path : Option Text) (object_id : Option ℕ) (principal : StoragePrincipal)
    (v : ℕ) (in_bucket : target.bucket_id ≡ bucket.id)
    (in_company : target.company_id ≡ bucket.company_id)
    (covers : resource_type_matches db.objects resource_type
        (some target.id)
        (normalize_path path)
        object_id
      ≡ true)
    (member : principal.company_id ≡ some bucket.company_id)
    (reader : principal.user_id ≡ some v) where
  subject_of_member :
      (g : StorageAccessGrant)
      → subject_matches g principal
        ≡ subject_type_matches g.subject_type g.subject_id v bucket.company_id
  unfolding subject_matches
  subject_of_member g = rw (reader, member)

  private_keep :
      (id id' : ℕ)
      → keep (grant_applies db principal bucket path object_id) (
          keep (is_active_grant now bucket.company_id) (
            company_deny id user_id target resource_type
            ∷ creator_allow id' user_id target resource_type
            ∷ []))
        ≡ company_deny id user_id target resource_type
          ∷ (if user_id == v then creator_allow id' user_id target resource_type ∷ [] else [])
  unfolding is_active_grant grant_applies resource_matches_grant
  private_keep id id' =
      simp (in_company, in_bucket, ==_refl, subject_of_member, covers, text_eq_refl, text_eq-str)
        (ground arith)

  -- The grants that match after the creation.
  private_matching :
      (id id' : ℕ)
      → matching_grants
          (record db {
            grants =
                db.grants
                ++ company_deny id user_id target resource_type
                  ∷ creator_allow id' user_id target resource_type
                  ∷ [];
          })
          now
          principal
          bucket
          path
          object_id
        ≡ matching_grants db now principal bucket path object_id
          ++ company_deny id user_id target resource_type
            ∷ (if user_id == v then creator_allow id' user_id target resource_type ∷ [] else [])
  unfolding matching_grants active_grants grant_applies
  private_matching id id' =
      let pair =
        company_deny id user_id target resource_type
        ∷ creator_allow id' user_id target resource_type
        ∷ [] in
      rw (keep-append (is_active_grant now bucket.company_id) db.grants pair) (
        keep-append (grant_applies db principal bucket path object_id)
          (keep (is_active_grant now bucket.company_id) db.grants)
          (keep (is_active_grant now bucket.company_id) pair)
        ∙ ap
            (λ l.
              keep (grant_applies db principal bucket path object_id)
                (keep (is_active_grant now bucket.company_id) db.grants)
              ++ l)
            (private_keep id id'))

  -- Less specific than a grant on a resource of this type.
  abbrev pub Below : StorageAccessGrant → Type 0
  Below h =
      (grant_specificity db.objects h).0 < resource_score db.objects resource_type (some target.id)

  Below-lt :
      (h g : StorageAccessGrant)
      → (grant_specificity db.objects g).0
        ≡ resource_score db.objects resource_type (some target.id)
      → Below h
      → pair_lt (grant_specificity db.objects h) (grant_specificity db.objects g) ≡ true
  unfolding pair_lt
  Below-lt h g e b = ground arith

  private_decisive :
      (id id' : ℕ) (old : List StorageAccessGrant) (mine : Bool)
      → All Below old
      → decisive db.objects (
          old
          ++ company_deny id user_id target resource_type
            ∷ (if mine then creator_allow id' user_id target resource_type ∷ [] else []))
        ≡ (if mine
            then creator_allow id' user_id target resource_type
            else company_deny id user_id target resource_type)
          ∷ []
  unfolding grant_specificity pair_lt
  private_decisive id id' old true h =
      let d = company_deny id user_id target resource_type in
      let a = creator_allow id' user_id target resource_type in
      ap (decisive db.objects) (sym (append_assoc old (d ∷ []) (a ∷ [])))
      ∙ decisive-last db.objects (old ++ d ∷ []) a (
          All-append _ old (d ∷ []) (All-map Below _ (λ g b. Below-lt g a refl b) old h)
            (ground arith, tt))
  private_decisive id id' old false h =
      let d = company_deny id user_id target resource_type in
      decisive-last db.objects old d (All-map Below _ (λ g b. Below-lt g d refl b) old h)

  private_verdict :
      (id id' : ℕ) (required : Permission) (default mine : Bool)
      → or_default
          (verdict required (
            (if mine
              then creator_allow id' user_id target resource_type
              else company_deny id user_id target resource_type)
            ∷ []))
          default
        ≡ mine
  private_verdict id id' required default true = ground arith
  private_verdict id id' required default false = ground arith

  reader_is_member : is_member principal bucket ≡ true
  unfolding is_member
  reader_is_member = rw (member, reader) (==_refl bucket.company_id)

  -- A new file or folder that has no grants, under no folder that has any, becomes private. The
  -- grants that match before may only be on less specific resources. Then the creator may do
  -- everything with what the new resource covers, and no other member of the company anything.
  pub private_by_default :
      (fresh : ℕ → ℕ) (for_write for_admin : Bool)
      → same_resource_type resource_type ResourceType.bucket ≡ false
      → is_empty (guarded_path target resource_type) ≡ false
      → resource_grants_exist db now target resource_type ≡ false
      → nearest_ancestor_folder_grants db now target.company_id
          (bucket_name db.buckets target.bucket_id)
          (guarded_path target resource_type)
        ≡ none
      → All Below (matching_grants db now principal bucket path object_id)
      → evaluate_access
          (ensure_default_private_access fresh db now (some user_id) target resource_type)
          now
          principal
          bucket
          path
          object_id
          for_write
          for_admin
        ≡ (user_id == v)
  unfolding ensure_default_private_access
  private_by_default fresh for_write for_admin typed full new alone below =
      let after = record db {
        grants = db.grants ++ private_pair fresh user_id target resource_type;
      } in
      rw (typed, full, new, alone)
        (evaluate_access-decision after now principal bucket path object_id for_write for_admin
          ∙ rw
              (
                reader_is_member,
                private_matching (fresh 0) (fresh 1),
                private_decisive (fresh 0) (fresh 1)
                    (matching_grants db now principal bucket path object_id) (user_id == v) below,
              )
              (private_verdict (fresh 0) (fresh 1) (required_permission for_write for_admin) _
                (user_id == v)))
