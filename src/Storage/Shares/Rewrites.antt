-- ===== src/Storage/Shares/Rewrites.antt =====
-- The requests that change share links, and the one row that each of them rewrites.
use storage_service.Prelude.{
  ℕ, ◌≡◌, refl, sym, ◌∙◌, ap, Bool, false, ◌&&◌, ◌||◌, inl, inr, List, Option, none, some, arith,
  ◌==◌, if◌then◌else◌, find, update_where, find-update, map_option, Bool-cases,
}
use storage_service.Text.{Text, text_eq}
use storage_service.Storage.Models.{ObjectShareLink, StoragePrincipal, Db}
use storage_service.Storage.Shares.{
  is_active, has_token, revoked, downloaded, revoke_share_link, redeem_share_link, in_company,
  is_company_admin,
}

-- What a request does to the links.
pub data Op : Type 0 where
  redeem : ℕ → Text → Op
  revoke : ℕ → StoragePrincipal → Text → Op

abbrev pub step : Op → Db → Db
step (redeem now token) db = (redeem_share_link now token db).1
step (revoke now principal token) db = (revoke_share_link now principal token db).1

abbrev pub link_of : Text → Db → Option ObjectShareLink
link_of token db = find (has_token token) db.links

-- The table of links after a step: unchanged, or one row rewritten, by its key.
abbrev pub rewrite :
    ObjectShareLink → (ObjectShareLink → ObjectShareLink) → Db → List ObjectShareLink
rewrite link f db = update_where (λ l. l.id == link.id) f db.links

-- The table of links after a redemption and after a revocation.
abbrev pub after_redeem : ℕ → Db → Option ObjectShareLink → List ObjectShareLink
after_redeem now db none = db.links
after_redeem now db (some link) =
    if is_active now link then rewrite link downloaded db else db.links

abbrev pub creator_or_admin : Option ℕ → Bool → ObjectShareLink → Bool
creator_or_admin none admin link = false
creator_or_admin (some user_id) admin link = (link.created_by_id == user_id) || admin

abbrev pub may_revoke : StoragePrincipal → ObjectShareLink → Bool
may_revoke principal link =
    in_company principal.company_id link
    && creator_or_admin principal.user_id (is_company_admin principal) link

abbrev pub after_revoke : ℕ → StoragePrincipal → Db → Option ObjectShareLink → List ObjectShareLink
after_revoke now principal db none = db.links
after_revoke now principal db (some link) =
    if may_revoke principal link then rewrite link (revoked now) db else db.links

pub redeem-links :
    (now : ℕ) (token : Text) (db : Db)
    → (redeem_share_link now token db).1.links ≡ after_redeem now db (link_of token db)
unfolding redeem_share_link
redeem-links now token db = ground arith

pub revoke-links :
    (now : ℕ) (principal : StoragePrincipal) (token : Text) (db : Db)
    → (revoke_share_link now principal token db).1.links
      ≡ after_revoke now principal db (link_of token db)
unfolding revoke_share_link
revoke-links now principal token db = ground arith

-- Two links with one key have one token.
abbrev pub Keyed : Db → Type 0
Keyed db =
    (a b : Text) (x y : ObjectShareLink)
    → link_of a db ≡ some x
    → link_of b db ≡ some y
    → x.id ≡ y.id
    → a ≡ b

module _ (link : ObjectShareLink) (f : ObjectShareLink → ObjectShareLink)
    (same_id : (l : ObjectShareLink) → (f l).id ≡ l.id)
    (same_token : (l : ObjectShareLink) → (f l).token ≡ l.token) (db : Db) where
  -- A rewritten table, as `link_of` reads it.
  pub find-rewrite :
      (t : Text)
      → find (has_token t) (rewrite link f db)
        ≡ map_option (λ l. if l.id == link.id then f l else l) (link_of t db)
  find-rewrite t =
      find-update (has_token t) (λ l. l.id == link.id) f db.links
        (λ l. ap (λ s. text_eq s t) (same_token l))

  rewritten_id :
      (o : Option ObjectShareLink) (x : ObjectShareLink)
      → map_option (λ l. if l.id == link.id then f l else l) o ≡ some x
      → (y : ObjectShareLink) × (o ≡ some y) × (x.id ≡ y.id)
  rewritten_id none x e = cc
  rewritten_id (some y) x e = (y, refl, ground (arith, same_id y))

  pub rewrite-Keyed : (after : Db) → after.links ≡ rewrite link f db → Keyed db → Keyed after
  rewrite-Keyed after e keyed a b x y fx fy same =
      let read = λ (t : Text). ap (find (has_token t)) e ∙ find-rewrite t in
      let (x', gx, ix) = rewritten_id (link_of a db) x (sym (read a) ∙ fx) in
      let (y', gy, iy) = rewritten_id (link_of b db) y (sym (read b) ∙ fy) in
      keyed a b x' y' gx gy (sym ix ∙ same ∙ iy)

same-Keyed : (db after : Db) → after.links ≡ db.links → Keyed db → Keyed after
same-Keyed db after e keyed a b x y fx fy =
    keyed a b x y (sym (ap (find (has_token a)) e) ∙ fx) (sym (ap (find (has_token b)) e) ∙ fy)

-- No request gives two links one key.
pub step-Keyed : (op : Op) (db : Db) → Keyed db → Keyed (step op db)
step-Keyed (redeem now token) db keyed = after (link_of token db) (redeem-links now token db)
  where
    after :
        (o : Option ObjectShareLink)
        → (step (redeem now token) db).links ≡ after_redeem now db o
        → Keyed (step (redeem now token) db)
    after none e = same-Keyed db (step (redeem now token) db) e keyed
    after (some k) e = elim (Bool-cases (is_active now k)) [
      | inl yes_active ↦
          rewrite-Keyed k downloaded (λ l. refl) (λ l. refl) db (step (redeem now token) db)
            (e ∙ rw yes_active) keyed
      | inr inactive ↦ same-Keyed db (step (redeem now token) db) (e ∙ rw inactive) keyed
    ]
step-Keyed (revoke now principal token) db keyed =
    after (link_of token db) (revoke-links now principal token db)
  where
    after :
        (o : Option ObjectShareLink)
        → (step (revoke now principal token) db).links ≡ after_revoke now principal db o
        → Keyed (step (revoke now principal token) db)
    after none e = same-Keyed db (step (revoke now principal token) db) e keyed
    after (some k) e = elim (Bool-cases (may_revoke principal k)) [
      | inl may ↦
          rewrite-Keyed k (revoked now) (λ l. ground arith) (λ l. ground arith) db
            (step (revoke now principal token) db) (e ∙ rw may) keyed
      | inr may_not ↦ same-Keyed db (step (revoke now principal token) db) (e ∙ rw may_not) keyed
    ]
