-- ===== src/Storage/Access/Decision.antt =====
-- The two loops over the top grants, as one verdict by `any`.
use storage_service.Prelude.{
  ◌≤◌, ◌≡◌, refl, Bool, true, false, ◌&&◌, ◌||◌, List, [], ◌∷◌, Option, none, some, arith, any,
  any_mono, if◌then◌else◌,
}
use storage_service.Storage.Models.{Permission, StorageAccessGrant}
use storage_service.Storage.Access.{
  permission_rank, permission_at_least, is_allow, denies, allow_loop, decide_top, or_default,
}

abbrev pub allows : Permission → StorageAccessGrant → Bool
allows required g = is_allow g.effect && permission_at_least g.permission required

-- A deny that blocks wins; else an allow that is strong enough; else any allow refuses; `none`
-- leaves the decision to the bucket.
abbrev pub verdict : Permission → List StorageAccessGrant → Option Bool
verdict required grants =
    if any (denies required) grants
    then some false
    else if any (allows required) grants
    then some true
    else if any (λ g. is_allow g.effect) grants
    then some false
    else none

allow_loop-any :
    (required : Permission) (saw : Bool) (grants : List StorageAccessGrant)
    → allow_loop required saw grants ≡ (
        if any (allows required) grants
        then some true
        else if saw || any (λ g. is_allow g.effect) grants
        then some false
        else none)
unfolding allow_loop
allow_loop-any required true [] = refl
allow_loop-any required false [] = refl
allow_loop-any required saw (g ∷ rest) =
    ground (arith, allow_loop-any required saw rest, allow_loop-any required true rest)

pub decide_top-verdict :
    (required : Permission) (grants : List StorageAccessGrant)
    → decide_top required grants ≡ verdict required grants
unfolding decide_top
decide_top-verdict required grants = rw (allow_loop-any required false grants)

-- A weaker requirement.
abbrev pub Weaker : Permission → Permission → Type 0
Weaker p q = permission_rank p ≤ permission_rank q

denies-Weaker :
    (p q : Permission)
    → Weaker p q
    → (g : StorageAccessGrant) → denies p g ≡ true
    → denies q g ≡ true
denies-Weaker p q w g h = ground arith

allows-Weaker :
    (p q : Permission)
    → Weaker p q
    → (g : StorageAccessGrant) → allows q g ≡ true
    → allows p g ≡ true
allows-Weaker p q w g h = ground arith

pub verdict-Weaker :
    (p q : Permission) (grants : List StorageAccessGrant) (dp dq : Bool)
    → Weaker p q
    → (dq ≡ true → dp ≡ true)
    → or_default (verdict q grants) dq ≡ true
    → or_default (verdict p grants) dp ≡ true
verdict-Weaker p q grants dp dq w d h = ground (
  arith,
  any_mono (denies p) (denies q) (denies-Weaker p q w) grants,
  any_mono (allows q) (allows p) (allows-Weaker p q w) grants,
  any_mono (allows p) (λ g. is_allow g.effect) (λ g e. ground arith) grants,
)
