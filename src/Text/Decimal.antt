-- ===== src/Text/Decimal.antt =====
-- `str(n)` for an integer that is not negative.
use storage_service.Prelude.{
  ℕ, zero, suc, ◌+◌, ◌-◌, ◌*◌, ◌/◌, ◌%◌, ◌<◌, ◌≡◌, refl, sym, ◌∙◌, ap, [], ◌∷◌, ◌++◌, arith,
  if◌then◌else◌, ltb,
}
use storage_service.Text.{Text, codes}

-- The fuel `n + 1` is enough, by `digits-value`.
digits : ℕ → ℕ → Text
digits zero n = []
digits (suc f) n =
    let rest = digits f (n / 10) in if ltb n 10 then (48 + n) ∷ [] else rest ++ (48 + n % 10) ∷ []

unfoldable pub str : ℕ → Text
unfolding digits
str n = digits (suc n) n

-- The number that decimal digits spell.
abbrev pub value_from : ℕ → Text → ℕ
value_from acc [] = acc
value_from acc (c ∷ s) = value_from (acc * 10 + (c - 48)) s

value_from-append :
    (acc : ℕ) (s : Text) (c : ℕ) → value_from acc (s ++ c ∷ []) ≡ value_from acc s * 10 + (c - 48)
value_from-append acc [] c = refl
value_from-append acc (d ∷ s) c = value_from-append (acc * 10 + (d - 48)) s c

digits-value : (f n : ℕ) → n < f → value_from 0 (digits f n) ≡ n
unfolding digits
digits-value zero n h = elim h [ ]
digits-value (suc f) n h =
    ground (arith, digits-value f (n / 10), value_from-append 0 (digits f (n / 10)) (48 + n % 10))

-- Two numbers with the same decimal text are the same number.
pub str-injective : (m n : ℕ) → str m ≡ str n → m ≡ n
unfolding str
str-injective m n e =
    sym (digits-value (suc m) m (omega arith))
    ∙ ap (value_from 0) e
    ∙ digits-value (suc n) n (omega arith)

str-1204 : str 1204 ≡ codes "1204"
unfolding str
str-1204 = refl

str-zero : str 0 ≡ codes "0"
unfolding str
str-zero = refl
