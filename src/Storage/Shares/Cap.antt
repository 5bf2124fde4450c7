-- ===== src/Storage/Shares/Cap.antt =====
-- Runs of redemptions and revocations of links, against the download cap of one link.
use storage_service.Prelude.{
  ℕ, ◌+◌, ◌≤◌, ◌≡◌, refl, sym, ◌∙◌, ap, subst, Bool, true, false, ◌&&◌, inl, inr, List, [], ◌∷◌,
  Option, none, some, arith, ◌==◌, ==_iff, ==_refl, if◌then◌else◌, find, map_option, Option-cases,
  Bool-cases,
}
use storage_service.Prelude.Outcome.{Outcome, ok, raised}
use storage_service.Text.{Text, text_eq, text_eq→eq, text_eq_refl}
use storage_service.Storage.Errors.{Failure}
use storage_service.Storage.Models.{ObjectShareLink, StoragePrincipal, Db}
use storage_service.Storage.Shares.{is_active, has_token, revoked, downloaded, redeem_share_link}
use storage_service.Storage.Shares.Rewrites.{
  Op, redeem, revoke, step, link_of, rewrite, after_redeem, may_revoke, redeem-links, revoke-links,
  Keyed, step-Keyed, find-rewrite,
}

abbrev pub is_ok : Outcome Failure ObjectShareLink → Bool
is_ok (ok _) = true
is_ok (raised _) = false

abbrev pub redeemable : ℕ → Option ObjectShareLink → Bool
redeemable now none = false
redeemable now (some link) = is_active now link

redeem-is_ok :
    (now : ℕ) (token : Text) (db : Db)
    → is_ok (redeem_share_link now token db).0 ≡ redeemable now (link_of token db)
unfolding redeem_share_link
redeem-is_ok now token db = ground arith

-- 1 for a redemption of the token that succeeds, else 0.
abbrev pub won : Text → Op → Db → ℕ
won t (redeem now token) db =
    if text_eq token t && is_ok (redeem_share_link now token db).0 then 1 else 0
won t (revoke now principal token) db = 0

-- What one step may do to a link: count a success, within the cap, or revoke it.
abbrev Moved : Text → ObjectShareLink → ℕ → Db → Type 0
Moved t l wins after =
    (l' : ObjectShareLink) × (link_of t after ≡ some l')
    × (l'.max_downloads ≡ l.max_downloads)
    × (l'.download_count ≡ l.download_count + wins)
    × ((m : ℕ) → l.max_downloads ≡ some m → l.download_count ≤ m → l'.download_count ≤ m)

unmoved :
    (t : Text) (l : ObjectShareLink) (after : Db) → link_of t after ≡ some l → Moved t l 0 after
unmoved t l after e = (l, e, refl, omega arith, λ m _ h. h)

room_left :
    (now : ℕ) (l : ObjectShareLink) (m : ℕ)
    → is_active now l ≡ true
    → l.max_downloads ≡ some m
    → l.download_count + 1 ≤ m
unfolding is_active
room_left now l m h e = ground arith

module _ (t : Text) (l : ObjectShareLink) (db : Db) (held : link_of t db ≡ some l)
    (keyed : Keyed db) where
  -- The link behind another token has another key; the one behind this token is this link.
  same_key :
      (token : Text) (k : ObjectShareLink)
      → link_of token db ≡ some k
      → (l.id == k.id) ≡ text_eq token t
  same_key token k found = elim (Bool-cases (l.id == k.id)) [
    | inl same ↦
        let e : t ≡ token = keyed t token l k held found ((==_iff l.id k.id).0 same) in
        rw (same, e, text_eq_refl token)
    | inr differs ↦ elim (Bool-cases (text_eq token t)) [
      | inl equal ↦
          let e : token ≡ t = text_eq→eq token t equal in
          let s : some k ≡ some l = sym found ∙ ap (λ (u : Text). link_of u db) e ∙ held in
          absurd (let q : l.id ≡ k.id = ground arith in ground (arith, q, ==_refl k.id))
      | inr other ↦ rw (differs, other)
    ]
  ]

  won_none :
      (now : ℕ) (token : Text)
      → redeemable now (link_of token db) ≡ false
      → won t (redeem now token) db ≡ 0
  won_none now token h = rw (redeem-is_ok now token db, h) (ground arith)

  won_some :
      (now : ℕ) (token : Text)
      → redeemable now (link_of token db) ≡ true
      → won t (redeem now token) db ≡ (if text_eq token t then 1 else 0)
  won_some now token h = rw (redeem-is_ok now token db, h) (ground arith)

  idle_redeem :
      (now : ℕ) (token : Text)
      → redeemable now (link_of token db) ≡ false
      → (redeem_share_link now token db).1.links ≡ db.links
  idle_redeem now token h = redeem-links now token db ∙ idle (link_of token db) h
    where
      idle :
          (o : Option ObjectShareLink) → redeemable now o ≡ false → after_redeem now db o ≡ db.links
      idle none e = refl
      idle (some k) e = rw e

  idle-Moved :
      (now : ℕ) (token : Text)
      → redeemable now (link_of token db) ≡ false
      → Moved t l (won t (redeem now token) db) (step (redeem now token) db)
  idle-Moved now token h =
      subst (λ w. Moved t l w (step (redeem now token) db)) (sym (won_none now token h))
        (unmoved t l (step (redeem now token) db)
          (ap (find (has_token t)) (idle_redeem now token h) ∙ held))

  -- The link that the rewriting of row `k` leaves behind this token.
  rewritten :
      (k : ObjectShareLink) (f : ObjectShareLink → ObjectShareLink) (after : Db)
      → ((x : ObjectShareLink) → (f x).id ≡ x.id)
      → ((x : ObjectShareLink) → (f x).token ≡ x.token)
      → after.links ≡ rewrite k f db
      → link_of t after ≡ some (if l.id == k.id then f l else l)
  rewritten k f after same_id same_token e =
      ap (find (has_token t)) e
      ∙ find-rewrite k f same_id same_token db t
      ∙ ap (map_option (λ x. if x.id == k.id then f x else x)) held

  hit-Moved :
      (now : ℕ) (token : Text) (k : ObjectShareLink)
      → link_of token db ≡ some k
      → is_active now k ≡ true
      → (mine : Bool) → (l.id == k.id) ≡ mine
      → link_of t (step (redeem now token) db) ≡ some (if mine then downloaded l else l)
      → Moved t l (if mine then 1 else 0) (step (redeem now token) db)
  hit-Moved now token k found active true same e =
      (downloaded l, e, refl, refl, λ m cap _. room_left now l m still_active cap)
    where
      still_active : is_active now l ≡ true
      still_active =
          let one : t ≡ token = keyed t token l k held found ((==_iff l.id k.id).0 same) in
          let row : some l ≡ some k = sym held ∙ ap (λ (u : Text). link_of u db) one ∙ found in
          subst (λ o. redeemable now o ≡ true) (sym row) active
  hit-Moved now token k found active false same e = unmoved t l (step (redeem now token) db) e

  redeem-Moved :
      (now : ℕ) (token : Text)
      → Moved t l (won t (redeem now token) db) (step (redeem now token) db)
  redeem-Moved now token = elim (Option-cases (link_of token db)) [
    | inl absent ↦ idle-Moved now token (rw absent)
    | inr (k, found) ↦ elim (Bool-cases (is_active now k)) [
      | inl active ↦
          subst (λ w. Moved t l w (step (redeem now token) db))
            (sym (
              won_some now token (rw found active)
              ∙ ap (λ b. if b then 1 else 0) (sym (same_key token k found))))
            (hit-Moved now token k found active (l.id == k.id) refl (
              rewritten k downloaded (step (redeem now token) db) (λ x. refl) (λ x. refl)
                (redeem-links now token db ∙ rw (found, active))))
      | inr inactive ↦ idle-Moved now token (rw found inactive)
    ]
  ]

  -- Revoking some link leaves this link's counter and cap alone.
  revoke-Moved :
      (now : ℕ) (principal : StoragePrincipal) (token : Text)
      → Moved t l 0 (step (revoke now principal token) db)
  revoke-Moved now principal token = elim (Option-cases (link_of token db)) [
    | inl absent ↦
        unmoved t l (step (revoke now principal token) db)
          (ap (find (has_token t)) (revoke-links now principal token db ∙ rw absent) ∙ held)
    | inr (k, found) ↦ elim (Bool-cases (may_revoke principal k)) [
      | inl may ↦
          let e =
            rewritten k (revoked now) (step (revoke now principal token) db) (λ x. ground arith)
              (λ x. ground arith) (revoke-links now principal token db ∙ rw (found, may)) in
          (
            if l.id == k.id then revoked now l else l,
            e,
            ground arith,
            ground arith,
            λ m cap h. ground arith,
          )
      | inr may_not ↦ unmoved t l (step (revoke now principal token) db) (
          ap (find (has_token t)) (revoke-links now principal token db ∙ rw (found, may_not))
          ∙ held)
    ]
  ]

step-Moved :
    (t : Text) (op : Op) (l : ObjectShareLink) (db : Db)
    → link_of t db ≡ some l
    → Keyed db
    → Moved t l (won t op db) (step op db)
step-Moved t (redeem now token) l db held keyed = redeem-Moved t l db held keyed now token
step-Moved t (revoke now principal token) l db held keyed =
    revoke-Moved t l db held keyed now principal token

-- The redemptions of a token that succeed in a run of requests.
abbrev pub wins : Text → List Op → Db → ℕ
wins t [] db = 0
wins t (op ∷ ops) db = won t op db + wins t ops (step op db)

-- Where links of one key have one token: in any run of redemptions and revocations, of this link
-- and of others, at any times, the successful redemptions of a link with a cap and those counted
-- before, if those are within the cap, are together at most the cap.
pub wins-le-max_downloads :
    (t : Text) (ops : List Op) (db : Db) (l : ObjectShareLink) (m : ℕ)
    → Keyed db
    → link_of t db ≡ some l
    → l.max_downloads ≡ some m
    → l.download_count ≤ m
    → l.download_count + wins t ops db ≤ m
wins-le-max_downloads t [] db l m keyed held cap within = omega arith
wins-le-max_downloads t (op ∷ ops) db l m keyed held cap within =
    let (l', held', same_cap, counted, bounded) = step-Moved t op l db held keyed in
    omega (
      arith,
      counted,
      wins-le-max_downloads t ops (step op db) l' m (step-Keyed op db keyed) held' (same_cap ∙ cap)
          (bounded m cap within),
    )
