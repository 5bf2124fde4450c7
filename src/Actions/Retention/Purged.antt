-- ===== src/Actions/Retention/Purged.antt =====
-- apps/actions/retention.py: the deletion in batches ends, and deletes just the rows of its query.
use storage_service.Prelude.{
  ℕ, zero, suc, ◌+◌, ◌-◌, ◌≤◌, ◌<◌, ◌≡◌, refl, sym, subst, ◌∙◌, Bool, not, List, [], ◌∷◌, none,
  some, arith, ◌==◌, if◌then◌else◌, min, length, length-keep, keep, Bool-cases, inl, inr,
}
use storage_service.Actions.Retention.{drop_first, Deleted, delete_in_batches}

module _ {A : Type 0} (p : A → Bool) where
  kept-drop_first :
      (n : ℕ) (rows : List A)
      → keep (λ a. not (p a)) (drop_first p n rows) ≡ keep (λ a. not (p a)) rows
  kept-drop_first n [] = refl
  kept-drop_first zero (x ∷ xs) = refl
  kept-drop_first (suc n) (x ∷ xs) =
      ground (arith, kept-drop_first n xs, kept-drop_first (suc n) xs)

  count-drop_first :
      (n : ℕ) (rows : List A) → length (keep p (drop_first p n rows)) ≡ length (keep p rows) - n
  count-drop_first n [] = omega arith
  count-drop_first zero (x ∷ xs) = omega arith
  count-drop_first (suc n) (x ∷ xs) =
      ground (arith, count-drop_first n xs, count-drop_first (suc n) xs)

  none-kept : (rows : List A) → length (keep p rows) ≡ 0 → keep (λ a. not (p a)) rows ≡ rows
  none-kept [] h = refl
  none-kept (x ∷ xs) h = ground (arith, none-kept xs)

  -- What a loop has done: it has ended, and all rows that are not of the query are left, in their
  -- order; if it has finished, just these are left, and it has counted all of the query.
  abbrev pub DeletesJust : ℕ → List A → Deleted A → Type 0
  DeletesJust before rows none = ⊥
  DeletesJust before rows (some (deleted, finished, left)) =
      (keep (λ a. not (p a)) left ≡ keep (λ a. not (p a)) rows)
      × (deleted + length (keep p left) ≡ before + length (keep p rows))
      × ((if finished then left else keep (λ a. not (p a)) rows) ≡ keep (λ a. not (p a)) rows)

  DeletesJust-step :
      (batch_size before found : ℕ) (rows : List A) (o : Deleted A)
      → found ≡ min batch_size (length (keep p rows))
      → DeletesJust (before + found) (drop_first p batch_size rows) o
      → DeletesJust before rows o
  DeletesJust-step batch_size before found rows none e h = h
  DeletesJust-step batch_size before found rows (some (deleted, finished, left)) e
        (same, count, all) =
      let kept = kept-drop_first batch_size rows in
      (
        same ∙ kept,
        omega (arith, count, count-drop_first batch_size rows, e),
        subst (λ k. (if finished then left else k) ≡ k) kept all,
      )

  delete_in_batches-Just :
      (batch_size : ℕ) (in_time : ℕ → Bool) (fuel turn deleted : ℕ) (rows : List A)
      → 1 ≤ batch_size
      → length (keep p rows) < fuel
      → DeletesJust deleted rows (delete_in_batches p batch_size in_time fuel turn deleted rows)
  unfolding delete_in_batches
  delete_in_batches-Just batch_size in_time zero turn deleted rows pos enough =
      absurd (omega (arith, enough))
  delete_in_batches-Just batch_size in_time (suc fuel) turn deleted rows pos enough =
      elim (Bool-cases (in_time turn)) [
        | inr late ↦ rw late (refl, refl, refl)
        | inl now ↦ elim (Bool-cases (min batch_size (length (keep p rows)) == 0)) [
          | inl stop ↦
              let no_row : length (keep p rows) ≡ 0 = ground (arith, stop, pos) in
              rw (now, stop) (refl, refl, sym (none-kept rows no_row))
          | inr more ↦
              let some_row : 1 ≤ length (keep p rows) = ground (arith, more, pos) in
              rw (now, more)
                (DeletesJust-step batch_size deleted (min batch_size (length (keep p rows))) rows _
                  refl
                  (delete_in_batches-Just batch_size in_time fuel (suc turn)
                    (deleted + min batch_size (length (keep p rows))) (drop_first p batch_size rows)
                    pos (omega (arith, count-drop_first batch_size rows, enough, pos, some_row))))
        ]
      ]

  -- With batches of at least one row, and fuel for one turn more than the query has rows, the
  -- deletion in batches ends, whatever the clock is; it leaves all rows that are not of the query, and
  -- if it says that it has finished, no others; and it counts the rows that it deletes.
  pub delete_in_batches-ends :
      (batch_size : ℕ) (in_time : ℕ → Bool) (rows : List A)
      → 1 ≤ batch_size
      → DeletesJust 0 rows (delete_in_batches p batch_size in_time (suc (length rows)) 0 0 rows)
  delete_in_batches-ends batch_size in_time rows pos =
      delete_in_batches-Just batch_size in_time (suc (length rows)) 0 0 rows pos
        (omega (arith, length-keep p rows))
