-- ===== src/Storage/Paths/Safe.antt =====
-- What `safe_object_path` accepts, and what it makes of it.
use storage_service.Prelude.{
  ℕ, ◌≡◌, refl, false, not, inl, inr, List, ◌∷◌, [], ◌++◌, arith, some, none, ap, Bool-cases,
  Option, Option-cases, if◌then◌else◌, ◌==◌, All, All-append, All-map, keep,
}
use storage_service.Text.{Text, text_eq, is_empty, slash}
use storage_service.Text.Trim.{
  strip_slashes, All-strip_by, strip_by_id, is_slash, LeftTrimmed, RightTrimmed,
  RightTrimmed-append,
}
use storage_service.Text.Split.{split, join, NoSlash, split-NoSlash, split-join, All-split}
use storage_service.Storage.Paths.{
  ok, safe_object_path, path_parts, collect_parts, joined, is_blank, parent_dir, forward_slashes,
}

abbrev NoBackslash : Text → Type 0
NoBackslash = All (λ c. (c == b'\\') ≡ false)

-- A segment that names something: it has no slash and no backslash, and is not empty, `.` or `..`.
abbrev pub SafeSegment : Text → Type 0
SafeSegment part =
    NoSlash part × NoBackslash part × (is_blank part ≡ false) × (text_eq part parent_dir ≡ false)

forward_slashes-NoBackslash : (s : Text) → NoBackslash (forward_slashes s)
forward_slashes-NoBackslash [] = tt
forward_slashes-NoBackslash (c ∷ s) = (turned c, forward_slashes-NoBackslash s)
  where
    turned : (d : ℕ) → ((if d == b'\\' then slash else d) == b'\\') ≡ false
    turned d = ground arith

forward_slashes_id : (s : Text) → NoBackslash s → forward_slashes s ≡ s
forward_slashes_id [] h = refl
forward_slashes_id (c ∷ s) h = rw (h.0, forward_slashes_id s h.1)

module _ (Q : Text → Type 0) where
  All-path_parts :
      (parts : List Text) → All Q parts → All Q (keep (λ part. not (is_blank part)) parts)
  All-path_parts [] h = tt
  All-path_parts (p ∷ ps) h = elim (Bool-cases (is_blank p)) [
    | inl e ↦ rw e (All-path_parts ps h.1)
    | inr e ↦ rw e (h.0, All-path_parts ps h.1)
  ]

  collect_parts-All :
      (parts out : List Text)
      → All Q parts
      → collect_parts parts ≡ some out
      → All (λ p. Q p × (is_blank p ≡ false) × (text_eq p parent_dir ≡ false)) out
  collect_parts-All [] out h e = let q : out ≡ [] = ground arith in rw q tt
  collect_parts-All (p ∷ ps) out h e = elim (Bool-cases (is_blank p)) [
    | inl blank ↦ collect_parts-All ps out h.1 (rw blank at e)
    | inr solid ↦ elim (Bool-cases (text_eq p parent_dir)) [
      | inl up ↦ absurd (ground arith)
      | inr down ↦ elim (Option-cases (collect_parts ps)) [
        | inl failed ↦ absurd (ground arith)
        | inr (parts, found) ↦
            let q : out ≡ p ∷ parts = ground arith in
            rw q ((h.0, solid, down), collect_parts-All ps parts h.1 found)
      ]
    ]
  ]

path_parts_id :
    (parts : List Text) → All SafeSegment parts → keep (λ part. not (is_blank part)) parts ≡ parts
path_parts_id [] h = refl
path_parts_id (p ∷ ps) h = rw (h.0.2, path_parts_id ps h.1)

collect_parts_id : (parts : List Text) → All SafeSegment parts → collect_parts parts ≡ some parts
collect_parts_id [] h = refl
collect_parts_id (p ∷ ps) h = rw (h.0.2, h.0.3, collect_parts_id ps h.1)

-- A joined path of safe segments begins and ends with no slash, and has no backslash.
solid_first : (p : Text) → SafeSegment p → (c : ℕ) × (s : Text) × (p ≡ c ∷ s)
solid_first [] h = absurd (ground arith)
solid_first (c ∷ s) h = (c, s, refl)

NoSlash-RightTrimmed : (s : Text) → NoSlash s → RightTrimmed is_slash s
NoSlash-RightTrimmed [] h = tt
NoSlash-RightTrimmed (c ∷ []) h = h.0
NoSlash-RightTrimmed (c ∷ d ∷ s) h = NoSlash-RightTrimmed (d ∷ s) h.1

join-first :
    (p : Text) (ps : List Text) → SafeSegment p → (c : ℕ) × (s : Text) × (join (p ∷ ps) ≡ c ∷ s)
join-first p [] h = solid_first p h
join-first p (q ∷ ps) h =
    let (c, s, e) = solid_first p h in
    (c, s ++ slash ∷ join (q ∷ ps), ap (λ t. t ++ slash ∷ join (q ∷ ps)) e)

join-RightTrimmed :
    (p : Text) (ps : List Text) → All SafeSegment (p ∷ ps) → RightTrimmed is_slash (join (p ∷ ps))
join-RightTrimmed p [] h = NoSlash-RightTrimmed p h.0.0
join-RightTrimmed p (q ∷ ps) h =
    let (c, s, e) = join-first q ps h.1.0 in
    RightTrimmed-append is_slash p slash (join (q ∷ ps))
      (rw e (rw e at (join-RightTrimmed q ps h.1)))

join-LeftTrimmed :
    (p : Text) (ps : List Text) → All SafeSegment (p ∷ ps) → LeftTrimmed is_slash (join (p ∷ ps))
join-LeftTrimmed [] ps h = absurd (ground arith)
join-LeftTrimmed (c ∷ s) [] h = h.0.0.0
join-LeftTrimmed (c ∷ s) (q ∷ ps) h = h.0.0.0

join-NoBackslash : (ps : List Text) → All SafeSegment ps → NoBackslash (join ps)
join-NoBackslash [] h = tt
join-NoBackslash (p ∷ []) h = h.0.1
join-NoBackslash (p ∷ q ∷ ps) h =
    All-append _ p (slash ∷ join (q ∷ ps)) h.0.1 (refl, join-NoBackslash (q ∷ ps) h.1)

All-NoSlash : (ps : List Text) → All SafeSegment ps → All NoSlash ps
All-NoSlash [] h = tt
All-NoSlash (p ∷ ps) h = (h.0.0, All-NoSlash ps h.1)

-- What a path of safe segments is normalised to.
safe_object_path_id :
    (p : Text) (ps : List Text)
    → All SafeSegment (p ∷ ps)
    → safe_object_path (join (p ∷ ps)) ≡ ok (join (p ∷ ps))
unfolding safe_object_path
safe_object_path_id p ps h =
    let (c, s, e) = join-first p ps h.0 in
    rw (
      forward_slashes_id (join (p ∷ ps)) (join-NoBackslash (p ∷ ps) h),
      strip_by_id is_slash (join (p ∷ ps)) (join-LeftTrimmed p ps h, join-RightTrimmed p ps h),
      split-join p ps (All-NoSlash (p ∷ ps) h),
      path_parts_id (p ∷ ps) h,
      collect_parts_id (p ∷ ps) h,
      e,
    )

safe_parts :
    (raw : Text) (out : List Text)
    → NoBackslash raw
    → collect_parts (path_parts raw) ≡ some out
    → All SafeSegment out
safe_parts raw out h e =
    All-map _ SafeSegment (λ p s. (s.0.0, s.0.1, s.1, s.2)) out
      (collect_parts-All (λ p. NoSlash p × NoBackslash p) (path_parts raw) out
        (All-path_parts (λ p. NoSlash p × NoBackslash p) (split raw)
          (both (split raw) (split-NoSlash raw) (All-split _ raw h)))
        e)
  where
    both :
        (ps : List Text)
        → All NoSlash ps
        → All NoBackslash ps
        → All (λ p. NoSlash p × NoBackslash p) ps
    both [] a b = tt
    both (p ∷ ps) a b = ((a.0, b.0), both ps a.1 b.1)

joined-Safe :
    (parts : Option (List Text)) (s : Text)
    → ((out : List Text) → parts ≡ some out → All SafeSegment out)
    → joined parts ≡ ok s
    → All SafeSegment (split s) × (safe_object_path s ≡ ok s)
joined-Safe none s h e = absurd (ground arith)
joined-Safe (some []) s h e = absurd (ground arith)
joined-Safe (some (p ∷ ps)) s h e =
    let q : s ≡ join (p ∷ ps) = ground arith in
    let safe = h (p ∷ ps) refl in
    rw (q, split-join p ps (All-NoSlash (p ∷ ps) safe)) (safe, safe_object_path_id p ps safe)

-- An accepted path is made of safe segments, none of them empty, `.` or `..`, and is accepted
-- again as it is.
pub safe_object_path-Safe :
    (path s : Text)
    → safe_object_path path ≡ ok s
    → All SafeSegment (split s) × (safe_object_path s ≡ ok s)
unfolding safe_object_path
safe_object_path-Safe path s e =
    let raw = strip_slashes (forward_slashes path) in
    elim (Bool-cases (is_empty raw)) [
      | inl empty ↦ absurd (ground arith)
      | inr full ↦
          joined-Safe (collect_parts (path_parts raw)) s
            (λ out.
              safe_parts raw out
                (All-strip_by _ is_slash (forward_slashes path) (forward_slashes-NoBackslash path)))
            (unfold safe_object_path in rw full at e)
    ]
