-- ===== src/Text/Replace.antt =====
-- `s.replace(old, new)`, and `old in s`, for a text `old` that is not empty.
use storage_service.Prelude.{
  ℕ, zero, suc, ◌-◌, Bool, false, ◌||◌, [], ◌∷◌, ◌++◌, if◌then◌else◌, length,
}
use storage_service.Text.{Text}
use storage_service.Text.Affix.{starts_with}

-- `skip` characters are left over from the occurrence that was replaced last.
abbrev pub replace_from : Text → Text → ℕ → Text → Text
replace_from old new skip [] = []
replace_from old new (suc skip) (c ∷ s) = replace_from old new skip s
replace_from old new zero (c ∷ s) =
    let replaced = new ++ replace_from old new (length old - 1) s in
    let kept = c ∷ replace_from old new zero s in if starts_with (c ∷ s) old then replaced else kept

abbrev pub replace : Text → Text → Text → Text
replace old new s = replace_from old new 0 s

abbrev pub contains : Text → Text → Bool
contains part [] = false
contains part (c ∷ s) = starts_with (c ∷ s) part || contains part s
