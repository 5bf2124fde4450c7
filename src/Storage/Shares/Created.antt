-- ===== src/Storage/Shares/Created.antt =====
-- What a request that creates a link has shown, and what the new link promises.
use storage_service.Prelude.{
  ℕ, ◌≡◌, refl, subst, ◌∙◌, Bool, true, false, ◌||◌, [], ◌∷◌, ◌++◌, Option, none, some, arith,
}
use storage_service.Prelude.Outcome.{Outcome, ok, raised, bind-ok, check-ok, ◌>>=◌, ◌>>◌}
use storage_service.Text.{Text}
use storage_service.Storage.Models.{Bucket, StorageObject, ObjectShareLink, StoragePrincipal, Db}
use storage_service.Storage.Access.{can_access_path}
use storage_service.Storage.Errors.{Call, Failure}
use storage_service.Storage.Resolve.{assert_can_access_path, find_object, get_accessible_bucket}
use storage_service.Storage.Shares.{
  is_active, is_set, Expiry, create_share_link, check_limits, insert_link, new_link,
  parse_expires_at, int_user,
}

assert_can_access_path-ok :
    (now : ℕ) (principal : StoragePrincipal) (bucket : Bucket) (obj : StorageObject) (w a : Bool)
    (db after : Db) (obj' : StorageObject)
    → assert_can_access_path now principal bucket obj w a db ≡ (ok obj', after)
    → (can_access_path db now principal bucket obj.name (some obj.id) w a ≡ true)
      × (obj' ≡ obj)
      × (after ≡ db)
unfolding assert_can_access_path
assert_can_access_path-ok now principal bucket obj w a db after obj' h =
    check-ok (can_access_path db now principal bucket obj.name (some obj.id) w a) _ obj db after
      obj' h

-- A new link has a limit, which it has not met yet.
new_link-is_active :
    (id now company_id user_id : ℕ) (token notes : Text) (obj : StorageObject)
    (expires max_downloads : Option ℕ) (db after : Db)
    → check_limits now expires max_downloads db ≡ (ok tt, after)
    → let link = new_link id token obj company_id user_id expires max_downloads notes in
      (is_active now link ≡ true)
      × ((is_set link.expires_at || is_set link.max_downloads) ≡ true)
      × (after ≡ db)
unfolding check_limits is_active
new_link-is_active id now company_id user_id token notes obj expires max_downloads db after h =
    ground arith

module _ (fresh : ℕ → ℕ) (now : ℕ) (token : Text) (principal : StoragePrincipal)
    (expires_at : Expiry) (max_downloads : Option ℕ) (notes : Text) where
  -- The steps of `create_share_link`, each with all that follows it.
  abbrev make : Bucket → StorageObject → Option ℕ → Call ObjectShareLink
  make bucket obj expires = int_user principal.user_id >>= λ user_id.
      insert_link
        (new_link (fresh 1) token obj bucket.company_id user_id expires max_downloads notes)

  abbrev limited : Bucket → StorageObject → Option ℕ → Call ObjectShareLink
  limited bucket obj expires = check_limits now expires max_downloads >> make bucket obj expires

  abbrev parsed : Bucket → StorageObject → Call ObjectShareLink
  parsed bucket obj = parse_expires_at expires_at >>= limited bucket obj

  abbrev allowed : Bucket → StorageObject → Call ObjectShareLink
  allowed bucket obj = assert_can_access_path now principal bucket obj true false >>= parsed bucket

  abbrev located : Text → Bucket → Call ObjectShareLink
  located path bucket = find_object bucket path >>= allowed bucket

  -- A link that has been made.
  abbrev pub Made : Db → Bucket → StorageObject → ObjectShareLink → Db → Type 0
  Made seen bucket obj link after =
      (can_access_path seen now principal bucket obj.name (some obj.id) true false ≡ true)
      × (link.object_id ≡ obj.id)
      × (is_active now link ≡ true)
      × ((is_set link.expires_at || is_set link.max_downloads) ≡ true)
      × (after.links ≡ seen.links ++ link ∷ [])

  abbrev Result : Db → Bucket → StorageObject → Outcome Failure ObjectShareLink × Db → Type 0
  Result seen bucket obj (ok link, after) = Made seen bucket obj link after
  Result seen bucket obj (raised e, after) = Unit

  find_object-same :
      (bucket : Bucket) (path : Text) (db after : Db) (obj : StorageObject)
      → find_object bucket path db ≡ (ok obj, after)
      → after ≡ db
  unfolding find_object
  find_object-same bucket path db after obj h = ground (arith, h)

  parse-ok :
      (db after : Db) (expires : Option ℕ)
      → parse_expires_at expires_at db ≡ (ok expires, after)
      → after ≡ db
  unfolding parse_expires_at
  parse-ok db after expires h = ground (arith, h)

  int_user-same :
      (user : Option ℕ) (db after : Db) (user_id : ℕ)
      → int_user user db ≡ (ok user_id, after)
      → after ≡ db
  int_user-same none db after user_id h = cc
  int_user-same (some id) db after user_id h = ground (arith, h)

  limited-ok :
      (bucket : Bucket) (obj : StorageObject) (expires : Option ℕ) (db after : Db)
      (link : ObjectShareLink)
      → can_access_path db now principal bucket obj.name (some obj.id) true false ≡ true
      → limited bucket obj expires db ≡ (ok link, after)
      → Made db bucket obj link after
  limited-ok bucket obj expires db after link may h =
      let (u, db', checked, made) =
        bind-ok (check_limits now expires max_downloads) (λ _. make bucket obj expires) db after
          link h in
      let (user_id, db₁, user, inserted) =
        bind-ok (int_user principal.user_id)
          (λ id.
            insert_link
              (new_link (fresh 1) token obj bucket.company_id id expires max_downloads notes))
          db' after link made in
      let (active, has_limit, same) =
        new_link-is_active (fresh 1) now bucket.company_id user_id token notes obj expires
          max_downloads db db' checked in
      subst (Result db bucket obj) inserted (
        may,
        refl,
        active,
        has_limit,
        rw (int_user-same principal.user_id db' db₁ user_id user ∙ same),
      )

  -- A link that is made is for the object that the request names, in a bucket that its creator
  -- may open, and the creator may write that object; the link is active and has an expiry or a
  -- cap, and it is the one row added.
  pub create_share_link-ok :
      (bucket_name path : Text) (db after : Db) (link : ObjectShareLink)
      → create_share_link fresh now token principal bucket_name path expires_at max_downloads notes
          db
        ≡ (ok link, after)
      → (seen : Db) × (bucket : Bucket) × (obj : StorageObject) × (get_accessible_bucket
            (fresh 0)
            now
            principal
            bucket_name
            false
            false
            db
          ≡ (ok bucket, seen))
        × (find_object bucket path seen ≡ (ok obj, seen))
        × Made seen bucket obj link after
  unfolding create_share_link
  create_share_link-ok bucket_name path db after link h =
      let (bucket, db₁, e₁, h₁) =
        bind-ok (get_accessible_bucket (fresh 0) now principal bucket_name false false)
          (located path) db after link h in
      let (obj, db₂, e₂, h₂) =
        bind-ok (find_object bucket path) (allowed bucket) db₁ after link h₁ in
      let (obj', db₃, e₃, h₃) =
        bind-ok (assert_can_access_path now principal bucket obj true false) (parsed bucket) db₂
          after link h₂ in
      let (expires, db₄, e₄, h₄) =
        bind-ok (parse_expires_at expires_at) (limited bucket obj') db₃ after link h₃ in
      let (may, same_obj, same) =
        assert_can_access_path-ok now principal bucket obj true false db₂ db₃ obj' e₃ in
      let at_rest : db₂ ≡ db₁ = find_object-same bucket path db₁ db₂ obj e₂ in
      let here : db₄ ≡ db₁ = parse-ok db₃ db₄ expires e₄ ∙ same ∙ at_rest in
      (
        db₁,
        bucket,
        obj,
        e₁,
        e₂ ∙ rw at_rest,
        subst (λ o. Made db₁ bucket o link after) same_obj
            (subst (λ d. Made d bucket obj' link after) here
              (limited-ok bucket obj' expires db₄ after link
                (rw (parse-ok db₃ db₄ expires e₄, same, same_obj) may) h₄)),
      )
