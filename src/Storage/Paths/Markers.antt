-- ===== src/Storage/Paths/Markers.antt =====
-- The name of a folder's marker object, and the folder that a marker stands for.
use storage_service.Prelude.{
  ℕ, ◌≡◌, refl, false, inl, inr, ◌∷◌, [], ◌++◌, arith, some, length, length-append, Bool, ap,
  if◌then◌else◌, Bool-cases,
}
use storage_service.Text.{Text, text_eq, text_eq→eq, is_empty, is_space, slash}
use storage_service.Text.Trim.{
  strip_by_id, strip_by-Trimmed, is_slash, strip, LeftTrimmed, Trimmed, RightTrimmed-append,
}
use storage_service.Text.Affix.{remove_suffix-append}
use storage_service.Storage.Paths.{
  normalize_path, folder_placeholder_name, folder_placeholder_path, folder_path_from_placeholder,
}

-- A path that `_normalize_path` leaves alone.
abbrev pub Stable : Text → Type 0
Stable s = Trimmed is_space s × Trimmed is_slash s

pub normalize-Stable : (s : Text) → Stable s → normalize_path (some s) ≡ s
normalize-Stable s h = rw (strip_by_id is_space s h.0) (strip_by_id is_slash s h.1)

marker_name : Text → Text
marker_name folder = folder ++ slash ∷ folder_placeholder_name

marker_name-Trimmed :
    (p : ℕ → Bool) (c : ℕ) (s : Text)
    → p c ≡ false
    → p b'r' ≡ false
    → Trimmed p (marker_name (c ∷ s))
unfolding marker_name
marker_name-Trimmed p c s h r = (h, RightTrimmed-append p (c ∷ s) slash folder_placeholder_name r)

marker_name-longer : (s : Text) → text_eq (marker_name s) folder_placeholder_name ≡ false
unfolding marker_name
marker_name-longer s = elim (Bool-cases (text_eq (marker_name s) folder_placeholder_name)) [
  | inl e ↦ absurd (
      omega (
        arith,
        length-append s (slash ∷ folder_placeholder_name),
        ap length (text_eq→eq (marker_name s) folder_placeholder_name e),
      ))
  | inr e ↦ e
]

folder_of_marker :
    (c : ℕ) (s : Text)
    → is_space c ≡ false
    → is_slash c ≡ false
    → folder_path_from_placeholder (marker_name (c ∷ s)) ≡ c ∷ s
folder_of_marker c s space sl =
    rw
      (
        normalize-Stable (marker_name (c ∷ s))
            (marker_name-Trimmed is_space c s space refl, marker_name-Trimmed is_slash c s sl refl),
        marker_name-longer (c ∷ s),
      )
      (unfold marker_name in rw (remove_suffix-append (slash ∷ folder_placeholder_name) (c ∷ s)))

marker_of_normal :
    (folder : Text)
    → LeftTrimmed is_space folder
    → LeftTrimmed is_slash folder
    → folder_path_from_placeholder (
        if is_empty folder
        then folder_placeholder_name
        else folder ++ slash ∷ folder_placeholder_name)
      ≡ folder
marker_of_normal [] space sl = refl
marker_of_normal (c ∷ s) space sl = unfold marker_name in folder_of_marker c s space sl

-- Reading back the marker of a folder gives the normalised folder path, if that path does not
-- begin with white space (which `_normalize_path` leaves behind a leading slash).
pub folder_path-placeholder_path :
    (folder : Text)
    → LeftTrimmed is_space (normalize_path (some folder))
    → folder_path_from_placeholder (folder_placeholder_path folder) ≡ normalize_path (some folder)
folder_path-placeholder_path folder h =
    marker_of_normal (normalize_path (some folder)) h (strip_by-Trimmed is_slash (strip folder)).0
