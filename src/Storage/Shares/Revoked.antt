-- ===== src/Storage/Shares/Revoked.antt =====
-- Runs of requests on links after a revocation of one of them.
use storage_service.Prelude.{
  ℕ, ◌≡◌, refl, ◌∙◌, ap, true, false, List, [], ◌∷◌, Option, none, some, arith, ◌==◌, if◌then◌else◌,
  Bool-cases, Option-cases, inl, inr, find, ==_refl,
}
use storage_service.Prelude.Outcome.{ok, raised}
use storage_service.Text.{Text, codes}
use storage_service.Storage.Errors.{storage_error}
use storage_service.Storage.Models.{ObjectShareLink, StoragePrincipal, Db}
use storage_service.Storage.Shares.{
  is_active, is_set, has_token, revoked, downloaded, redeem_share_link, revoke_share_link,
}
use storage_service.Storage.Shares.Rewrites.{
  Op, redeem, revoke, step, link_of, rewrite, after_redeem, after_revoke, may_revoke, redeem-links,
  revoke-links, find-rewrite,
}

-- The link behind a token is there and revoked.
abbrev pub IsRevoked : Text → Db → Type 0
IsRevoked t db = (l : ObjectShareLink) × (link_of t db ≡ some l) × (is_set l.revoked_at ≡ true)

abbrev pub run : List Op → Db → Db
run [] db = db
run (op ∷ ops) db = run ops (step op db)

rewrite-IsRevoked :
    (t : Text) (k : ObjectShareLink) (f : ObjectShareLink → ObjectShareLink) (db after : Db)
    → ((x : ObjectShareLink) → (f x).id ≡ x.id)
    → ((x : ObjectShareLink) → (f x).token ≡ x.token)
    → ((x : ObjectShareLink) → is_set x.revoked_at ≡ true → is_set (f x).revoked_at ≡ true)
    → after.links ≡ rewrite k f db
    → IsRevoked t db
    → IsRevoked t after
rewrite-IsRevoked t k f db after same_id same_token keeps e (l, held, dead) = (
  if l.id == k.id then f l else l,
  ap (find (has_token t)) e ∙ find-rewrite k f same_id same_token db t ∙ rw held,
  ground (arith, keeps l dead),
)

same-IsRevoked :
    (t : Text) (db after : Db) → after.links ≡ db.links → IsRevoked t db → IsRevoked t after
same-IsRevoked t db after e (l, held, dead) = (l, ap (find (has_token t)) e ∙ held, dead)

redeem-IsRevoked :
    (t : Text) (now : ℕ) (token : Text) (db : Db)
    → IsRevoked t db
    → IsRevoked t (step (redeem now token) db)
redeem-IsRevoked t now token db h = after (link_of token db) (redeem-links now token db)
  where
    after :
        (o : Option ObjectShareLink)
        → (step (redeem now token) db).links ≡ after_redeem now db o
        → IsRevoked t (step (redeem now token) db)
    after none e = same-IsRevoked t db (step (redeem now token) db) e h
    after (some k) e = elim (Bool-cases (is_active now k)) [
      | inl active ↦
          rewrite-IsRevoked t k downloaded db (step (redeem now token) db) (λ x. refl) (λ x. refl)
            (λ x d. d) (e ∙ rw active) h
      | inr inactive ↦ same-IsRevoked t db (step (redeem now token) db) (e ∙ rw inactive) h
    ]

revoke-IsRevoked :
    (t : Text) (now : ℕ) (principal : StoragePrincipal) (token : Text) (db : Db)
    → IsRevoked t db
    → IsRevoked t (step (revoke now principal token) db)
revoke-IsRevoked t now principal token db h =
    after (link_of token db) (revoke-links now principal token db)
  where
    after :
        (o : Option ObjectShareLink)
        → (step (revoke now principal token) db).links ≡ after_revoke now principal db o
        → IsRevoked t (step (revoke now principal token) db)
    after none e = same-IsRevoked t db (step (revoke now principal token) db) e h
    after (some k) e = elim (Bool-cases (may_revoke principal k)) [
      | inl may ↦
          rewrite-IsRevoked t k (revoked now) db (step (revoke now principal token) db)
            (λ x. ground arith) (λ x. ground arith) (λ x d. ground arith) (e ∙ rw may) h
      | inr may_not ↦ same-IsRevoked t db (step (revoke now principal token) db) (e ∙ rw may_not) h
    ]

run-IsRevoked : (t : Text) (ops : List Op) (db : Db) → IsRevoked t db → IsRevoked t (run ops db)
run-IsRevoked t [] db h = h
run-IsRevoked t (redeem now token ∷ ops) db h =
    run-IsRevoked t ops (step (redeem now token) db) (redeem-IsRevoked t now token db h)
run-IsRevoked t (revoke now principal token ∷ ops) db h =
    run-IsRevoked t ops (step (revoke now principal token) db)
      (revoke-IsRevoked t now principal token db h)

dead-inactive :
    (now : ℕ) (l : ObjectShareLink) → is_set l.revoked_at ≡ true → is_active now l ≡ false
unfolding is_active
dead-inactive now l dead = rw dead

revoked-is_set : (now : ℕ) (l : ObjectShareLink) → is_set (revoked now l).revoked_at ≡ true
revoked-is_set now l = ground arith

-- What a revocation answers is an error, or the row found, revoked.
revoke-found :
    (now : ℕ) (principal : StoragePrincipal) (t : Text) (db : Db) (l : ObjectShareLink)
    → (revoke_share_link now principal t db).0 ≡ ok l
    → (k : ObjectShareLink) × (link_of t db ≡ some k) × (may_revoke principal k ≡ true)
unfolding revoke_share_link
revoke-found now principal t db l h = elim (Option-cases (link_of t db)) [
  | inl absent ↦ absurd (ground (arith, absent, h))
  | inr (k, found) ↦ (k, found, ground (arith, found, h))
]

revoke-ok :
    (now : ℕ) (principal : StoragePrincipal) (t : Text) (db : Db) (l : ObjectShareLink)
    → (revoke_share_link now principal t db).0 ≡ ok l
    → IsRevoked t (step (revoke now principal t) db)
revoke-ok now principal t db l h =
    let (k, found, may) = revoke-found now principal t db l h in
    (
      revoked now k,
      ap (find (has_token t)) (revoke-links now principal t db ∙ rw (found, may))
          ∙ find-rewrite k (revoked now) (λ x. ground arith) (λ x. ground arith) db t
          ∙ rw (found, ==_refl k.id),
      revoked-is_set now k,
    )

dead_redeem :
    (now : ℕ) (t : Text) (db : Db)
    → IsRevoked t db
    → redeem_share_link now t db ≡ (raised (storage_error 410 (codes "share_inactive")), db)
unfolding redeem_share_link
dead_redeem now t db (l, held, dead) =
    let inactive : is_active now l ≡ false = dead-inactive now l dead in rw (held, inactive)

-- Once a revocation of a link has returned, and after any run of further requests on links, a
-- redemption of it is refused with 410 and changes nothing.
pub revoke_share_link-redeem_share_link :
    (first later : ℕ) (principal : StoragePrincipal) (t : Text) (ops : List Op) (db : Db)
    (l : ObjectShareLink)
    → (revoke_share_link first principal t db).0 ≡ ok l
    → let after = run ops (revoke_share_link first principal t db).1 in
      redeem_share_link later t after ≡ (raised (storage_error 410 (codes "share_inactive")), after)
revoke_share_link-redeem_share_link first later principal t ops db l h =
    dead_redeem later t (run ops (revoke_share_link first principal t db).1) (
      run-IsRevoked t ops (step (revoke first principal t) db) (revoke-ok first principal t db l h))
