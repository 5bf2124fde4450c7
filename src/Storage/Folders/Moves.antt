-- ===== src/Storage/Folders/Moves.antt =====
-- `move_object`: what a move finds, and what it makes of the tables.
use storage_service.Prelude.{
  ℕ, ◌==◌, ==_iff, ◌≡◌, refl, sym, ap, subst, ◌∙◌, ◌⊎◌, inl, inr, Bool, true, false, not, List, [],
  ◌∷◌, some, arith, find, find_sound, any, map, update_where, if◌then◌else◌, Bool-cases,
  Option-cases,
}
use storage_service.Prelude.Outcome.{
  Outcome, ok, raised, rolled_back, atomic, bind-ok, check-ok, pure, check, ◌>>=◌, ◌>>◌,
}
use storage_service.Text.{Text, codes}
use storage_service.Storage.Errors.{Call, Failure, storage_error}
use storage_service.Storage.Paths
use storage_service.Storage.Paths.{PathResult, safe_object_path}
use storage_service.Storage.Resolve.{safe_path, object_named}
use storage_service.Storage.Models.{Bucket, StorageObject, Db}
use storage_service.Storage.Folders.{
  is_of, found_object, check_free, exists_named, place_object, move_grants, move_across,
  move_object,
}

-- The calls of a move to another bucket.
abbrev crossed : Bucket → Bucket → StorageObject → Text → Call StorageObject
crossed bucket dest obj name =
    check (bucket.company_id == dest.company_id) (storage_error 403 (codes "forbidden")) tt
    >> (place_object obj dest.id name >>= λ moved. move_grants obj.id dest.id >> pure moved)

ok-value :
    {A : Type 0} {a b : A} {s t : Db} → ◌≡◌ {A = Outcome Failure A × Db} (ok a, s) (ok b, t) → a ≡ b
ok-value h = cc

atomic-ok : {A : Type 0} (m : Call A) (s t : Db) (a : A) → atomic m s ≡ (ok a, t) → m s ≡ (ok a, t)
atomic-ok {A} m s t a h = back (m s) h
  where
    back : (r : Outcome Failure A × Db) → rolled_back s r ≡ (ok a, t) → r ≡ (ok a, t)
    back (ok x, u) k = k
    back (raised e, u) k = cc

safe_path-ok :
    (r : PathResult) (db after : Db) (name : Text)
    → safe_path r db ≡ (ok name, after)
    → (r ≡ Paths.ok name) × (after ≡ db)
safe_path-ok (Paths.ok x) db after name h = ground (arith, h)
safe_path-ok (Paths.err e) db after name h = cc

found_object-ok :
    (bucket : Bucket) (name : Text) (db after : Db) (obj : StorageObject)
    → found_object bucket name db ≡ (ok obj, after)
    → (find (object_named bucket.id name) db.objects ≡ some obj) × (after ≡ db)
found_object-ok bucket name db after obj h =
    elim (Option-cases (find (object_named bucket.id name) db.objects)) [
      | inl absent ↦ absurd (ground (arith, absent, h))
      | inr (o, found) ↦ ground (arith, found, h)
    ]

-- The buckets are one, and the grants are left; or they are two of one company, and the grants on the
-- object go with it.
abbrev pub GrantsFollow : Bucket → Bucket → StorageObject → Db → Db → Type 0
GrantsFollow bucket dest obj db after =
    ((bucket.id ≡ dest.id) × (after.grants ≡ db.grants))
    ⊎ ((bucket.company_id ≡ dest.company_id)
        × (after.grants
            ≡ map (λ g. if is_of obj.id g.object_id then record g { bucket_id = dest.id } else g)
                db.grants))

-- What a move has shown of the tables that it found, and what it has made of them.
abbrev pub Moved : Bucket → Bucket → Text → Text → Db → StorageObject → Db → Type 0
Moved bucket dest source_name dest_name db moved after =
    (obj : StorageObject) × (find (object_named bucket.id source_name) db.objects ≡ some obj)
    × (any (object_named dest.id dest_name) db.objects ≡ false)
    × GrantsFollow bucket dest obj db after
    × (moved ≡ record obj { bucket_id = dest.id; name = dest_name })
    × (after.objects
        ≡ map
            (λ o. if o.id == obj.id then record o { bucket_id = dest.id; name = dest_name } else o)
            db.objects)

update-map :
    {A : Type 0} (p : A → Bool) (f : A → A) (rows : List A)
    → update_where p f rows ≡ map (λ o. if p o then f o else o) rows
update-map p f [] = refl
update-map p f (o ∷ rows) = ground (arith, update-map p f rows)

move_across-ok :
    (bucket dest : Bucket) (obj : StorageObject) (name : Text) (db after : Db)
    (moved : StorageObject)
    → obj.bucket_id ≡ bucket.id
    → move_across bucket dest obj name db ≡ (ok moved, after)
    → GrantsFollow bucket dest obj db after
      × (moved ≡ record obj { bucket_id = dest.id; name = name })
      × (after.objects
          ≡ update_where
              (λ o. o.id == obj.id)
              (λ o. record o { bucket_id = dest.id; name = name })
              db.objects)
move_across-ok bucket dest obj name db after moved stands h =
    elim (Bool-cases (bucket.id == dest.id)) [
      | inl same ↦
          let one : bucket.id ≡ dest.id = (==_iff bucket.id dest.id).0 same in
          let here : obj.bucket_id ≡ dest.id = stands ∙ one in
          let done : place_object obj dest.id name db ≡ (ok moved, after) =
            subst (λ b. place_object obj b name db ≡ (ok moved, after)) here
              (subst
                (λ b.
                  (if b then place_object obj obj.bucket_id name else crossed bucket dest obj name)
                    db
                  ≡ (ok moved, after))
                same h) in
          (
            inl (one, sym (ap (λ r. r.1.grants) done)),
            sym (ok-value done),
            sym (ap (λ r. r.1.objects) done),
          )
      | inr other ↦
          let crossing : crossed bucket dest obj name db ≡ (ok moved, after) =
            subst
              (λ b.
                (if b then place_object obj obj.bucket_id name else crossed bucket dest obj name) db
                ≡ (ok moved, after))
              other h in
          let (_, db₁, checked, done) =
            bind-ok
              (check (bucket.company_id == dest.company_id) (storage_error 403 (codes "forbidden"))
                tt)
              (λ _. place_object obj dest.id name >>= λ m. move_grants obj.id dest.id >> pure m) db
              after moved crossing in
          let (company, _, unchanged) =
            check-ok (bucket.company_id == dest.company_id) (storage_error 403 (codes "forbidden"))
              tt db db₁ tt checked in
          (
            inr (
              (==_iff bucket.company_id dest.company_id).0 company,
              sym (ap (λ r. r.1.grants) done)
                  ∙ update-map (λ g. is_of obj.id g.object_id)
                      (λ g. record g { bucket_id = dest.id }) db₁.grants
                  ∙ ap
                      (λ (d : Db).
                        map
                          (λ g.
                            if is_of obj.id g.object_id
                            then record g { bucket_id = dest.id }
                            else g)
                          d.grants)
                      unchanged,
            ),
            sym (ok-value done),
            sym (ap (λ r. r.1.objects) done)
                ∙ ap (λ d. (place_object obj dest.id name d).1.objects) unchanged,
          )
    ]

object_named-bucket :
    (bucket_id : ℕ) (name : Text) (obj : StorageObject)
    → object_named bucket_id name obj ≡ true
    → obj.bucket_id ≡ bucket_id
object_named-bucket bucket_id name obj h = ground (arith, h)

not-true : (b : Bool) → not b ≡ true → b ≡ false
not-true true h = cc
not-true false h = refl

-- The calls of a move that follow, each with the next.
abbrev move_onto : Bucket → Bucket → Text → StorageObject → Call StorageObject
move_onto bucket dest dst obj = check_free dest dst >> move_across bucket dest obj dst

abbrev move_named : Bucket → Bucket → Text → Text → Call StorageObject
move_named bucket dest src dst = found_object bucket src >>= move_onto bucket dest dst

abbrev move_path : Bucket → Bucket → Text → Text → Call StorageObject
move_path bucket dest dest_path src =
    safe_path (safe_object_path dest_path) >>= move_named bucket dest src

-- A move that returns has found the first object with the source's safe name in its bucket and no
-- object with the destination's safe name in the other, which is the same bucket or one of the same
-- company. The object it returns is that object with the destination's bucket and name; in the table
-- its row has them, and no other row and no other column is changed; the grants on it go with it to
-- another bucket.
pub move_object-Moved :
    (bucket : Bucket) (source_path : Text) (dest : Bucket) (dest_path : Text) (db after : Db)
    (moved : StorageObject)
    → move_object bucket source_path dest dest_path db ≡ (ok moved, after)
    → (source_name : Text) × (dest_name : Text) × (safe_object_path source_path
        ≡ Paths.ok source_name)
      × (safe_object_path dest_path ≡ Paths.ok dest_name)
      × Moved bucket dest source_name dest_name db moved after
unfolding move_object
move_object-Moved bucket source_path dest dest_path db after moved h =
    let (src, db₁, e₁, h₁) =
      bind-ok (safe_path (safe_object_path source_path)) (move_path bucket dest dest_path) db after
        moved
        (atomic-ok (safe_path (safe_object_path source_path) >>= move_path bucket dest dest_path) db
          after moved h) in
    let (dst, db₂, e₂, h₂) =
      bind-ok (safe_path (safe_object_path dest_path)) (move_named bucket dest src) db₁ after moved
        h₁ in
    let (obj, db₃, e₃, h₃) =
      bind-ok (found_object bucket src) (move_onto bucket dest dst) db₂ after moved h₂ in
    let (_, db₄, e₄, h₄) =
      bind-ok (check_free dest dst) (λ _. move_across bucket dest obj dst) db₃ after moved h₃ in
    let (source_safe, same₁) = safe_path-ok (safe_object_path source_path) db db₁ src e₁ in
    let (dest_safe, same₂) = safe_path-ok (safe_object_path dest_path) db₁ db₂ dst e₂ in
    let (found, same₃) = found_object-ok bucket src db₂ db₃ obj e₃ in
    let (free, _, same₄) =
      check-ok (not (exists_named db₃ dest dst))
        (storage_error 400 (codes "resource_already_exists")) tt db₃ db₄ tt e₄ in
    let at₂ : db₂ ≡ db = same₂ ∙ same₁ in
    let at₃ : db₃ ≡ db = same₃ ∙ at₂ in
    let at₄ : db₄ ≡ db = same₄ ∙ at₃ in
    let stands : obj.bucket_id ≡ bucket.id =
      object_named-bucket bucket.id src obj
        (find_sound (object_named bucket.id src) db₂.objects obj found) in
    let (company, value, rows) = move_across-ok bucket dest obj dst db₄ after moved stands h₄ in
    (
      src,
      dst,
      source_safe,
      dest_safe,
      (
        obj,
        subst (λ (d : Db). find (object_named bucket.id src) d.objects ≡ some obj) at₂ found,
        subst (λ (d : Db). any (object_named dest.id dst) d.objects ≡ false) at₃ (not-true _ free),
        subst (λ d. GrantsFollow bucket dest obj d after) at₄ company,
        value,
        rows
            ∙ update-map (λ o. o.id == obj.id) (λ o. record o { bucket_id = dest.id; name = dst })
                db₄.objects
            ∙ ap
                (λ (d : Db).
                  map
                    (λ o.
                      if o.id == obj.id then record o { bucket_id = dest.id; name = dst } else o)
                    d.objects)
                at₄,
      ),
    )
