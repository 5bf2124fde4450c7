-- ===== src/Storage/Access/Ranking.antt =====
-- The specificity order: `max` of pairs, and the grants that no other grant outranks.
use storage_service.Prelude.{
  ℕ, ◌≡◌, refl, sym, ◌∙◌, All-unmap, Bool, true, false, not, ◌||◌, inl, inr, List, [], ◌∷◌, ◌++◌,
  any-append, keep-append, keep-none, map, arith, keep, any, Bool-cases, All, All-map, any_mono,
  any-false, any-map, keep-congr,
}
use storage_service.Storage.Models.{StorageObject, StorageAccessGrant}
use storage_service.Storage.Access.{
  grant_specificity, pair_lt, pair_eq, higher, max_from, top_grants,
}

pair_lt_trans : (x y z : ℕ × ℕ) → pair_lt x y ≡ true → pair_lt z y ≡ false → pair_lt z x ≡ false
unfolding pair_lt
pair_lt_trans (a, b) (c, d) (e, f) h k = ground arith

pair_lt_irrefl : (x : ℕ × ℕ) → pair_lt x x ≡ false
unfolding pair_lt
pair_lt_irrefl (a, b) = ground arith

pub pair_lt_asym : (x y : ℕ × ℕ) → pair_lt x y ≡ true → pair_lt y x ≡ false
unfolding pair_lt
pair_lt_asym (a, b) (c, d) h = ground arith

pair_eq→eq : (x y : ℕ × ℕ) → pair_eq x y ≡ true → x ≡ y
unfolding pair_eq
pair_eq→eq (a, b) (c, d) h = ground arith

pair_eq_refl : (x : ℕ × ℕ) → pair_eq x x ≡ true
unfolding pair_eq
pair_eq_refl (a, b) = ground arith

-- What is not above and not equal is below.
pair_below : (x y : ℕ × ℕ) → pair_lt y x ≡ false → pair_eq x y ≡ false → pair_lt x y ≡ true
unfolding pair_lt pair_eq
pair_below (a, b) (c, d) h k = ground arith

higher-ge :
    (s t m : ℕ × ℕ) → pair_lt m (higher s t) ≡ false → (pair_lt m s ≡ false) × (pair_lt m t ≡ false)
unfolding pair_lt higher
higher-ge (a, b) (c, d) (e, f) h = ground arith

higher-mem : (s t m : ℕ × ℕ) → pair_eq (higher s t) m ≡ true → (pair_eq s m || pair_eq t m) ≡ true
unfolding higher
higher-mem s t m h = ground arith

-- No element is above the maximum, and the maximum is an element.
max_from_ge : (s : ℕ × ℕ) (l : List (ℕ × ℕ)) → All (λ t. pair_lt (max_from s l) t ≡ false) (s ∷ l)
unfolding max_from
max_from_ge s [] = (pair_lt_irrefl s, tt)
max_from_ge s (t ∷ l) =
    let (ge, rest) = max_from_ge (higher s t) l in
    let (ge_s, ge_t) = higher-ge s t (max_from (higher s t) l) ge in (ge_s, (ge_t, rest))

max_from-mem : (s : ℕ × ℕ) (l : List (ℕ × ℕ)) → any (λ t. pair_eq t (max_from s l)) (s ∷ l) ≡ true
unfolding max_from
max_from-mem s [] = rw (pair_eq_refl s)
max_from-mem s (t ∷ l) =
    ground (arith, max_from-mem (higher s t) l, higher-mem s t (max_from (higher s t) l))

module _ (objects : List StorageObject) where
  -- Some grant of the list is more specific than `g`.
  abbrev pub outranked : List StorageAccessGrant → StorageAccessGrant → Bool
  outranked grants g =
      any (λ h. pair_lt (grant_specificity objects g) (grant_specificity objects h)) grants

  -- The grants that no grant of the list outranks.
  abbrev pub decisive : List StorageAccessGrant → List StorageAccessGrant
  decisive grants = keep (λ g. not (outranked grants g)) grants

  module _ (best : ℕ × ℕ) (grants : List StorageAccessGrant) where
    some_above :
        (s : ℕ × ℕ)
        → any (λ h. pair_eq (grant_specificity objects h) best) grants ≡ true
        → pair_lt s best ≡ true
        → any (λ h. pair_lt s (grant_specificity objects h)) grants ≡ true
    some_above s attained below =
        any_mono (λ h. pair_eq (grant_specificity objects h) best)
          (λ h. pair_lt s (grant_specificity objects h))
          (λ h e. rw (pair_eq→eq (grant_specificity objects h) best e) below) grants attained

    top-unranked :
        (s : ℕ × ℕ)
        → any (λ h. pair_lt best (grant_specificity objects h)) grants ≡ false
        → any (λ h. pair_eq (grant_specificity objects h) best) grants ≡ true
        → pair_lt best s ≡ false
        → pair_eq s best ≡ not (any (λ h. pair_lt s (grant_specificity objects h)) grants)
    top-unranked s above attained h = elim (Bool-cases (pair_eq s best)) [
      | inl same ↦ let e : s ≡ best = pair_eq→eq s best same in rw (same, e, above)
      | inr differs ↦ rw (differs, some_above s attained (pair_below s best h differs))
    ]

    tops-unranked :
        (gs : List StorageAccessGrant)
        → any (λ h. pair_lt best (grant_specificity objects h)) grants ≡ false
        → any (λ h. pair_eq (grant_specificity objects h) best) grants ≡ true
        → All (λ h. pair_lt best (grant_specificity objects h) ≡ false) gs
        → All (λ h. pair_eq (grant_specificity objects h) best ≡ not (outranked grants h)) gs
    tops-unranked [] above attained h = tt
    tops-unranked (g ∷ gs) above attained h = (
      top-unranked (grant_specificity objects g) above attained h.0,
      tops-unranked gs above attained h.1,
    )

  -- The grants at the maximum are the decisive ones.
  pub top_grants-decisive :
      (grants : List StorageAccessGrant) → top_grants objects grants ≡ decisive grants
  unfolding top_grants
  top_grants-decisive [] = refl
  top_grants-decisive (g ∷ rest) =
      let scores = map (grant_specificity objects) rest in
      let best = max_from (grant_specificity objects g) scores in
      let ge =
        All-unmap (λ t. pair_lt best t ≡ false) (grant_specificity objects) (g ∷ rest)
          (max_from_ge (grant_specificity objects g) scores) in
      keep-congr (λ h. pair_eq (grant_specificity objects h) best) _ (g ∷ rest)
        (tops-unranked best (g ∷ rest) (g ∷ rest) (any-false _ (g ∷ rest) ge)
          (sym (any-map (λ t. pair_eq t best) (grant_specificity objects) (g ∷ rest))
            ∙ max_from-mem (grant_specificity objects g) scores)
          ge)

  -- A grant that is more specific than all before it decides alone.
  pub decisive-last :
      (old : List StorageAccessGrant) (g : StorageAccessGrant)
      → All (λ h. pair_lt (grant_specificity objects h) (grant_specificity objects g) ≡ true) old
      → decisive (old ++ g ∷ []) ≡ g ∷ []
  decisive-last old g below = rw (
    keep-append (λ h. not (outranked (old ++ g ∷ []) h)) old (g ∷ []),
    keep-none (λ h. not (outranked (old ++ g ∷ []) h)) old
        (All-map _ _ (λ h e. rw (any-append _ old (g ∷ []), e) (ground arith)) old below),
    any-append (λ h. pair_lt (grant_specificity objects g) (grant_specificity objects h)) old
        (g ∷ []),
    any-false (λ h. pair_lt (grant_specificity objects g) (grant_specificity objects h)) old
        (All-map _ _
          (λ h e. pair_lt_asym (grant_specificity objects h) (grant_specificity objects g) e) old
          below),
    pair_lt_irrefl (grant_specificity objects g),
  )
