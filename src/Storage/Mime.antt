-- ===== src/Storage/Mime.antt =====
-- apps/storage/mime.py but for `safe_object_path`. `str.lower` and the `mimetypes` module are
-- Python's: `lower` and `guess_mime_type` stand for them.
use storage_service.Prelude.{
  Bool, true, false, not, ◌&&◌, List, [], ◌∷◌, Option, none, some, ◌==◌, if◌then◌else◌, take,
  length, ◌-◌,
}
use storage_service.Text.{Text, codes, text_eq, is_empty}
use storage_service.Text.Trim.{strip}
use storage_service.Text.Affix.{starts_with, ends_with}

-- `value.split(';', 1)[0]`.
abbrev pub before_semicolon : Text → Text
before_semicolon [] = []
before_semicolon (c ∷ s) = let rest = before_semicolon s in if c == b';' then [] else c ∷ rest

module _ (lower : Text → Text) where
  abbrev pub cleaned_mime : Text → Text
  cleaned_mime value = lower (strip (before_semicolon value))

  -- `s[:-1]`.
  abbrev without_last : Text → Text
  without_last s = take (length s - 1) s

  abbrev pub pattern_matches : Text → Text → Bool
  pattern_matches mime pattern =
      let pattern = lower (strip pattern) in
      if is_empty pattern
      then false
      else if ends_with pattern (codes "/*")
      then starts_with mime (without_last pattern)
      else text_eq mime pattern

  abbrev pub any_pattern : Text → List Text → Bool
  any_pattern mime [] = false
  any_pattern mime (pattern ∷ rest) =
      let later = any_pattern mime rest in if pattern_matches mime pattern then true else later

  unfoldable pub mime_allowed : Text → List Text → Bool
  mime_allowed mime_type [] = true
  mime_allowed mime_type (pattern ∷ rest) = any_pattern (cleaned_mime mime_type) (pattern ∷ rest)

  abbrev usable_mime : Text → Bool
  usable_mime cleaned =
      not (is_empty cleaned) && not (text_eq cleaned (codes "application/octet-stream"))

  unfoldable pub normalize_mime_type : (Text → Text) → Option Text → Text → Text
  normalize_mime_type guess_mime_type none filename = guess_mime_type filename
  normalize_mime_type guess_mime_type (some value) filename =
      let cleaned = cleaned_mime value in
      if not (is_empty value) && usable_mime cleaned then cleaned else guess_mime_type filename
