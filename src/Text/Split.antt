-- ===== src/Text/Split.antt =====
-- `s.split('/')` and `'/'.join(parts)`.
use storage_service.Prelude.{
  ℕ, ◌≡◌, refl, ◌≢◌, false, List, [], ◌∷◌, ◌++◌, arith, if◌then◌else◌, ◌==◌, append_assoc,
  Bool-cases, inl, inr, All,
}
use storage_service.Text.{Text, slash}

-- Put a character in front of the first part.
abbrev push_char : ℕ → List Text → List Text
push_char c [] = (c ∷ []) ∷ []
push_char c (p ∷ ps) = (c ∷ p) ∷ ps

abbrev pub split : Text → List Text
split [] = [] ∷ []
split (c ∷ s) = let rest = split s in if c == slash then [] ∷ rest else push_char c rest

abbrev pub join : List Text → Text
join [] = []
join (p ∷ []) = p
join (p ∷ q ∷ ps) = p ++ slash ∷ join (q ∷ ps)

-- No slash in a part.
abbrev pub NoSlash : Text → Type 0
NoSlash = All (λ c. (c == slash) ≡ false)

push_char-ne-nil : (c : ℕ) (ps : List Text) → push_char c ps ≢ []
push_char-ne-nil c [] h = cc
push_char-ne-nil c (p ∷ ps) h = cc

split-ne-nil : (s : Text) → split s ≢ []
split-ne-nil [] h = cc
split-ne-nil (c ∷ s) h = ground (arith, push_char-ne-nil c (split s))

join-push_char : (c : ℕ) (ps : List Text) → ps ≢ [] → join (push_char c ps) ≡ c ∷ join ps
join-push_char c [] h = absurd (h refl)
join-push_char c (p ∷ []) h = refl
join-push_char c (p ∷ q ∷ ps) h = refl

join-empty_part : (ps : List Text) → ps ≢ [] → join ([] ∷ ps) ≡ slash ∷ join ps
join-empty_part [] h = absurd (h refl)
join-empty_part (p ∷ ps) h = refl

pub join-split : (s : Text) → join (split s) ≡ s
join-split [] = refl
join-split (c ∷ s) = elim (Bool-cases (c == slash)) [
  | inl e ↦ rw (e, join-empty_part (split s) (split-ne-nil s)) (ground (arith, join-split s))
  | inr e ↦ rw (e, join-push_char c (split s) (split-ne-nil s), join-split s)
]

push_char-NoSlash :
    (c : ℕ) (ps : List Text) → (c == slash) ≡ false → All NoSlash ps → All NoSlash (push_char c ps)
push_char-NoSlash c [] e h = ((e, tt), tt)
push_char-NoSlash c (p ∷ ps) e h = ((e, h.0), h.1)

pub split-NoSlash : (s : Text) → All NoSlash (split s)
split-NoSlash [] = (tt, tt)
split-NoSlash (c ∷ s) = elim (Bool-cases (c == slash)) [
  | inl e ↦ rw e (tt, split-NoSlash s)
  | inr e ↦ rw e (push_char-NoSlash c (split s) e (split-NoSlash s))
]

-- A part with no slash is split off whole.
pub split-part : (p s : Text) → NoSlash p → split (p ++ slash ∷ s) ≡ p ∷ split s
split-part [] s h = refl
split-part (c ∷ p) s h = rw (h.0, split-part p s h.1)

split-last : (p : Text) → NoSlash p → split p ≡ p ∷ []
split-last [] h = refl
split-last (c ∷ p) h = rw (h.0, split-last p h.1)

pub split-join : (p : Text) (ps : List Text) → All NoSlash (p ∷ ps) → split (join (p ∷ ps)) ≡ p ∷ ps
split-join p [] h = split-last p h.0
split-join p (q ∷ ps) h = rw (split-part p (join (q ∷ ps)) h.0, split-join q ps h.1)

push_char-append :
    (c : ℕ) (ps qs : List Text) → ps ≢ [] → push_char c (ps ++ qs) ≡ push_char c ps ++ qs
push_char-append c [] qs h = absurd (h refl)
push_char-append c (p ∷ ps) qs h = refl

-- A slash between two texts ends the last part of the first.
pub split-slash : (a b : Text) → split (a ++ slash ∷ b) ≡ split a ++ split b
split-slash [] b = refl
split-slash (c ∷ a) b = elim (Bool-cases (c == slash)) [
  | inl e ↦ rw (e, split-slash a b)
  | inr e ↦ rw (e, split-slash a b) (push_char-append c (split a) (split b) (split-ne-nil a))
]

pub join-append :
    (p : Text) (ps : List Text) (q : Text) (qs : List Text)
    → join ((p ∷ ps) ++ q ∷ qs) ≡ join (p ∷ ps) ++ slash ∷ join (q ∷ qs)
join-append p [] q qs = refl
join-append p (r ∷ ps) q qs = rw (join-append r ps q qs, append_assoc)

-- The first part is there.
pub split-head : (s : Text) → (p : Text) × (ps : List Text) × (split s ≡ p ∷ ps)
split-head s = head (split s) (split-ne-nil s)
  where
    head : (ps : List Text) → ps ≢ [] → (p : Text) × (qs : List Text) × (ps ≡ p ∷ qs)
    head [] h = absurd (h refl)
    head (p ∷ ps) h = (p, ps, refl)

-- Splitting keeps what holds of every character.
module _ (P : ℕ → Type 0) where
  All-push_char : (c : ℕ) (ps : List Text) → P c → All (All P) ps → All (All P) (push_char c ps)
  All-push_char c [] h k = ((h, tt), tt)
  All-push_char c (p ∷ ps) h k = ((h, k.0), k.1)

  pub All-split : (s : Text) → All P s → All (All P) (split s)
  All-split [] h = (tt, tt)
  All-split (c ∷ s) h = elim (Bool-cases (c == slash)) [
    | inl e ↦ rw e (tt, All-split s h.1)
    | inr e ↦ rw e (All-push_char c (split s) h.0 (All-split s h.1))
  ]
