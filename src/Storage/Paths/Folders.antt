-- ===== src/Storage/Paths/Folders.antt =====
-- `_folder_matches` on string prefixes, against the segments of the two paths.
use storage_service.Prelude.{
  ◌≡◌, refl, ◌↔◌, sym, ◌∙◌, true, false, ◌⊎◌, inl, inr, List, ◌∷◌, [], ◌++◌, append-nil,
  append_assoc, arith, some, Bool, ap, Bool-cases, Option-cases, if◌then◌else◌, ◌||◌,
}
use storage_service.Text.{Text, text_eq, text_eq→eq, text_eq_refl, is_empty, slash}
use storage_service.Text.Affix.{
  starts_with, remove_prefix, remove_prefix-append, remove_prefix_sound,
}
use storage_service.Text.Split.{split, join, join-split, split-slash, join-append, split-head}
use storage_service.Storage.Paths.{normalize_path, folder_matches}

-- The segments of `prefix` are the first segments of `path`.
abbrev pub Within : Text → Text → Type 0
Within prefix path = (rest : List Text) × (split path ≡ split prefix ++ rest)

||-true : (b : Bool) → (b || true) ≡ true
||-true false = refl
||-true true = refl

inside : Text → Text → Bool
inside prefix path = text_eq path prefix || starts_with path (prefix ++ slash ∷ [])

inside-Within : (prefix path : Text) → inside prefix path ≡ true → Within prefix path
unfolding inside
inside-Within prefix path h = elim (Bool-cases (text_eq path prefix)) [
  | inl e ↦ ([], rw (text_eq→eq path prefix e) (sym (append-nil (split prefix))))
  | inr e ↦ elim (Option-cases (remove_prefix (prefix ++ slash ∷ []) path)) [
    | inl absent ↦ ground arith
    | inr (r, found) ↦ (
      split r,
      rw (remove_prefix_sound (prefix ++ slash ∷ []) path r found, append_assoc)
          (split-slash prefix r),
    )
  ]
]

same-inside : (prefix path : Text) → path ≡ prefix → inside prefix path ≡ true
unfolding inside
same-inside prefix path e = rw (e, text_eq_refl prefix)

below-inside : (prefix path r : Text) → path ≡ prefix ++ slash ∷ r → inside prefix path ≡ true
unfolding inside
below-inside prefix path r e = rw (e, below_starts) (||-true (text_eq (prefix ++ slash ∷ r) prefix))
  where
    below_starts : starts_with (prefix ++ slash ∷ r) (prefix ++ slash ∷ []) ≡ true
    below_starts =
        rw (← append_assoc prefix (slash ∷ []) r, remove_prefix-append (prefix ++ slash ∷ []) r)

join-below :
    (prefix : Text) (q : Text) (qs : List Text)
    → join (split prefix ++ q ∷ qs) ≡ prefix ++ slash ∷ join (q ∷ qs)
join-below prefix q qs =
    let (p, ps, e) = split-head prefix in rw (e, join-append p ps q qs, ← e, join-split prefix)

Within-inside : (prefix path : Text) → Within prefix path → inside prefix path ≡ true
Within-inside prefix path ([], e) =
    same-inside prefix path
      (sym (join-split path) ∙ ap join (e ∙ append-nil (split prefix)) ∙ join-split prefix)
Within-inside prefix path (q ∷ qs, e) =
    below-inside prefix path (join (q ∷ qs))
      (sym (join-split path) ∙ ap join e ∙ join-below prefix q qs)

matches_iff :
    (n path : Text)
    → ((if is_empty n then true else inside n path) ≡ true) ↔ ((n ≡ []) ⊎ Within n path)
matches_iff [] path = (λ _. inl refl, λ _. refl)
matches_iff (c ∷ n) path = (
  λ h. inr (inside-Within (c ∷ n) path h),
  λ w. elim w [ inl e ↦ cc | inr within ↦ Within-inside (c ∷ n) path within ],
)

-- A path is in a folder exactly when the folder is the root, or the segments of the folder's
-- normalised path are the first segments of the normalised path.
pub folder_matches_iff :
    (prefix path : Text)
    → (folder_matches prefix path ≡ true) ↔ (
        (normalize_path (some prefix) ≡ [])
        ⊎ Within (normalize_path (some prefix)) (normalize_path (some path)))
unfolding inside
folder_matches_iff prefix path =
    matches_iff (normalize_path (some prefix)) (normalize_path (some path))
