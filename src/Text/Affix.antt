-- ===== src/Text/Affix.antt =====
-- `str.startswith` and `str.endswith`, with what is left when the affix is removed.
use storage_service.Prelude.{
  ℕ, ◌≡◌, refl, ap, Bool, false, [], ◌∷◌, ◌++◌, arith, if◌then◌else◌, ◌==◌, Option, none, some,
  is_some, length, length-append, Option-cases, Bool-cases, inl, inr,
}
use storage_service.Text.{Text, text_eq, text_eq→eq, text_eq_refl}

-- `s[len(prefix):]` where `s.startswith(prefix)`.
abbrev pub remove_prefix : Text → Text → Option Text
remove_prefix [] s = some s
remove_prefix (c ∷ p) [] = none
remove_prefix (c ∷ p) (d ∷ s) = if c == d then remove_prefix p s else none

-- `s.startswith(prefix)`.
abbrev pub starts_with : Text → Text → Bool
starts_with s prefix = is_some (remove_prefix prefix s)

-- `s[:-len(suffix)]` where `s.endswith(suffix)`, for a suffix that is not empty.
abbrev pub consing : ℕ → Option Text → Option Text
consing c none = none
consing c (some s) = some (c ∷ s)

abbrev pub remove_suffix : Text → Text → Option Text
remove_suffix suffix [] = if text_eq [] suffix then some [] else none
remove_suffix suffix (c ∷ s) =
    let rest = remove_suffix suffix s in if text_eq (c ∷ s) suffix then some [] else consing c rest

-- `s.endswith(suffix)`.
abbrev pub ends_with : Text → Text → Bool
ends_with s suffix = is_some (remove_suffix suffix s)

pub remove_prefix-append : (p s : Text) → remove_prefix p (p ++ s) ≡ some s
remove_prefix-append [] s = refl
remove_prefix-append (c ∷ p) s = ground (arith, remove_prefix-append p s)

pub remove_prefix_sound : (p s r : Text) → remove_prefix p s ≡ some r → s ≡ p ++ r
remove_prefix_sound [] s r h = ground arith
remove_prefix_sound (c ∷ p) [] r h = ground arith
remove_prefix_sound (c ∷ p) (d ∷ s) r h = ground (arith, remove_prefix_sound p s r)

pub remove_suffix_sound : (q s r : Text) → remove_suffix q s ≡ some r → s ≡ r ++ q
remove_suffix_sound q [] r h = ground (arith, text_eq→eq [] q)
remove_suffix_sound q (c ∷ s) r h = elim (Bool-cases (text_eq (c ∷ s) q)) [
  | inl e ↦ ground (arith, text_eq→eq (c ∷ s) q)
  | inr e ↦ elim (Option-cases (remove_suffix q s)) [
    | inl absent ↦ ground arith
    | inr (t, found) ↦ ground (arith, remove_suffix_sound q s t found)
  ]
]

longer-ne : (c : ℕ) (r q : Text) → text_eq (c ∷ (r ++ q)) q ≡ false
longer-ne c r q = elim (Bool-cases (text_eq (c ∷ (r ++ q)) q)) [
  | inl e ↦ absurd (omega (arith, length-append r q, ap length (text_eq→eq (c ∷ (r ++ q)) q e)))
  | inr e ↦ e
]

remove_suffix_self : (q : Text) → remove_suffix q q ≡ some []
remove_suffix_self [] = refl
remove_suffix_self (c ∷ q) = rw (text_eq_refl (c ∷ q))

pub remove_suffix-append : (q r : Text) → remove_suffix q (r ++ q) ≡ some r
remove_suffix-append q [] = remove_suffix_self q
remove_suffix-append q (c ∷ r) = rw (longer-ne c r q, remove_suffix-append q r)
