-- ===== src/Text/Trim.antt =====
-- `str.strip()`, `str.strip('/')`, and paths with no slash at either end.
use storage_service.Prelude.{
  ℕ, ◌≡◌, refl, Bool, false, [], ◌∷◌, ◌++◌, All, arith, if◌then◌else◌, ◌==◌, Bool-cases, inl, inr,
}
use storage_service.Text.{Text, is_empty, is_space, slash}

module _ (p : ℕ → Bool) where
  -- `s.lstrip(chars)`, with `p` for membership in `chars`.
  abbrev pub strip_left : Text → Text
  strip_left [] = []
  strip_left (c ∷ s) = let rest = strip_left s in if p c then rest else c ∷ s

  -- `s.rstrip(chars)`.
  abbrev pub strip_right : Text → Text
  strip_right [] = []
  strip_right (c ∷ s) =
      let rest = strip_right s in if is_empty rest then (if p c then [] else c ∷ []) else c ∷ rest

  -- `s.strip(chars)`.
  abbrev pub strip_by : Text → Text
  strip_by s = strip_right (strip_left s)

abbrev pub is_slash : ℕ → Bool
is_slash c = c == slash

-- `s.strip()`.
abbrev pub strip : Text → Text
strip = strip_by is_space

-- `s.strip('/')`.
abbrev pub strip_slashes : Text → Text
strip_slashes = strip_by is_slash

module _ (p : ℕ → Bool) where
  -- The first and the last character, where there are any, are not in `p`.
  abbrev pub LeftTrimmed : Text → Type 0
  LeftTrimmed [] = Unit
  LeftTrimmed (c ∷ s) = p c ≡ false

  abbrev pub RightTrimmed : Text → Type 0
  RightTrimmed [] = Unit
  RightTrimmed (c ∷ []) = p c ≡ false
  RightTrimmed (c ∷ d ∷ s) = RightTrimmed (d ∷ s)

  pub strip_left-LeftTrimmed : (s : Text) → LeftTrimmed (strip_left p s)
  strip_left-LeftTrimmed [] = tt
  strip_left-LeftTrimmed (c ∷ s) = elim (Bool-cases (p c)) [
    | inl e ↦ rw e (strip_left-LeftTrimmed s)
    | inr e ↦ rw e e
  ]

  pub strip_left_id : (s : Text) → LeftTrimmed s → strip_left p s ≡ s
  strip_left_id [] h = refl
  strip_left_id (c ∷ s) h = ground arith

  pub strip_right_id : (s : Text) → RightTrimmed s → strip_right p s ≡ s
  strip_right_id [] h = refl
  strip_right_id (c ∷ []) h = ground arith
  strip_right_id (c ∷ d ∷ s) h = ground (arith, strip_right_id (d ∷ s) h)

  cons-RightTrimmed :
      (c : ℕ) (r : Text)
      → RightTrimmed r
      → RightTrimmed (if is_empty r then (if p c then [] else c ∷ []) else c ∷ r)
  cons-RightTrimmed c [] h = elim (Bool-cases (p c)) [ inl e ↦ rw e tt | inr e ↦ rw e e ]
  cons-RightTrimmed c (d ∷ r) h = h

  pub strip_right-RightTrimmed : (s : Text) → RightTrimmed (strip_right p s)
  strip_right-RightTrimmed [] = tt
  strip_right-RightTrimmed (c ∷ s) =
      cons-RightTrimmed c (strip_right p s) (strip_right-RightTrimmed s)

  cons-LeftTrimmed :
      (c : ℕ) (r : Text)
      → p c ≡ false
      → LeftTrimmed (if is_empty r then (if p c then [] else c ∷ []) else c ∷ r)
  cons-LeftTrimmed c [] h = rw h h
  cons-LeftTrimmed c (d ∷ r) h = h

  strip_right-LeftTrimmed : (s : Text) → LeftTrimmed s → LeftTrimmed (strip_right p s)
  strip_right-LeftTrimmed [] h = tt
  strip_right-LeftTrimmed (c ∷ s) h = cons-LeftTrimmed c (strip_right p s) h

  abbrev pub Trimmed : Text → Type 0
  Trimmed s = LeftTrimmed s × RightTrimmed s

  pub strip_by-Trimmed : (s : Text) → Trimmed (strip_by p s)
  strip_by-Trimmed s = (
    strip_right-LeftTrimmed (strip_left p s) (strip_left-LeftTrimmed s),
    strip_right-RightTrimmed (strip_left p s),
  )

  pub strip_by_id : (s : Text) → Trimmed s → strip_by p s ≡ s
  strip_by_id s h = rw (strip_left_id s h.0) (strip_right_id s h.1)

  pub RightTrimmed-append :
      (s : Text) (c : ℕ) (t : Text) → RightTrimmed (c ∷ t) → RightTrimmed (s ++ c ∷ t)
  RightTrimmed-append [] c t h = h
  RightTrimmed-append (d ∷ []) c t h = h
  RightTrimmed-append (d ∷ e ∷ s) c t h = RightTrimmed-append (e ∷ s) c t h

-- Stripping keeps what holds of every character.
module _ (P : ℕ → Type 0) where
  All-strip_left : (p : ℕ → Bool) (s : Text) → All P s → All P (strip_left p s)
  All-strip_left p [] h = tt
  All-strip_left p (c ∷ s) h = elim (Bool-cases (p c)) [
    | inl e ↦ rw e (All-strip_left p s h.1)
    | inr e ↦ rw e h
  ]

  All-cons_right :
      (p : ℕ → Bool) (c : ℕ) (r : Text)
      → P c
      → All P r
      → All P (if is_empty r then (if p c then [] else c ∷ []) else c ∷ r)
  All-cons_right p c [] h k = elim (Bool-cases (p c)) [ inl e ↦ rw e tt | inr e ↦ rw e (h, tt) ]
  All-cons_right p c (d ∷ r) h k = (h, k)

  All-strip_right : (p : ℕ → Bool) (s : Text) → All P s → All P (strip_right p s)
  All-strip_right p [] h = tt
  All-strip_right p (c ∷ s) h = All-cons_right p c (strip_right p s) h.0 (All-strip_right p s h.1)

  pub All-strip_by : (p : ℕ → Bool) (s : Text) → All P s → All P (strip_by p s)
  All-strip_by p s h = All-strip_right p (strip_left p s) (All-strip_left p s h)
