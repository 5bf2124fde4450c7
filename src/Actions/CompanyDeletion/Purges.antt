-- ===== src/Actions/CompanyDeletion/Purges.antt =====
-- apps/actions/company_deletion.py: what a deletion leaves of a company, and that its flag stays.
use storage_service.Prelude.{
  ℕ, zero, suc, ◌+◌, ◌≤◌, ◌*◌, ◌≡◌, refl, ap, subst, ◌⊎◌, Bool, true, false, List, [], ◌∷◌, ◌++◌,
  arith, length, any, any-append, ◌==◌, Bool-cases, inl, inr, ==_refl, ==_iff, All, Option, none,
  some, if◌then◌else◌,
}
use storage_service.Prelude.Outcome.{Outcome, ok, raised}
use storage_service.Actions.Outbox.{second}
use storage_service.Actions.CompanyDeletion.{
  CompanyDeletion, Tables, PurgeError, pass, no_model, passes, delete_company_rows, is_over,
  after_model, after_purge, sweep_row, purge_company, purge_deleted_companies,
}

-- What a deletion makes true of its table, and what no deletion makes untrue again: that the table
-- has no row of the company.
abbrev pub Clears : {S : Type 0} → Tables S → ℕ → (ℕ → S → Type 0) → Type 0
Clears {S} tables company_id Cleared =
    (model count : ℕ) (s after : S)
    → tables.delete model company_id s ≡ some (count, after)
    → Cleared model after

abbrev pub StaysClear : {S : Type 0} → Tables S → ℕ → (ℕ → S → Type 0) → Type 0
StaysClear {S} tables company_id Cleared =
    (model other count : ℕ) (s after : S)
    → tables.delete model company_id s ≡ some (count, after)
    → Cleared other s
    → Cleared other after

abbrev is_in : ℕ → List ℕ → Bool
is_in model models = any (λ m. m == model) models

false-true : false ≡ true → ⊥
false-true h = cc

none_in :
    (model : ℕ) (models : List ℕ)
    → no_model models ≡ true
    → is_in model models ≡ true
    → false ≡ true
none_in model [] h k = k
none_in model (m ∷ models) h k = h

All-self :
    (P : ℕ → Type 0) (models : List ℕ)
    → ((model : ℕ) → is_in model models ≡ true → P model)
    → All P models
All-self P [] h = tt
All-self P (m ∷ models) h =
    (h m (ground (arith, ==_refl m)), All-self P models (λ k here. h k (ground (arith, here))))

module _ {S : Type 0} (tables : Tables S) (company_id : ℕ) (Cleared : ℕ → S → Type 0)
    (clears : Clears tables company_id Cleared) (stays : StaysClear tables company_id Cleared) where
  -- A table is clear, or its deletion is still to come.
  abbrev Waits : ℕ → List ℕ → S → Type 0
  Waits model models s = Cleared model s ⊎ (is_in model models ≡ true)

  pass-Waits :
      (model : ℕ) (remaining : List ℕ) (s : S)
      → Waits model remaining s
      → let done = pass tables company_id remaining s in Waits model done.blocked done.state
  pass-Waits model [] s w = w
  pass-Waits model (first ∷ rest) s w =
      by_case (pass-Waits model rest) (tables.delete first company_id s) refl
    where
      by_case :
          ((s' : S)
            → Waits model rest s'
            → let done = pass tables company_id rest s' in Waits model done.blocked done.state)
          → (r : Option (ℕ × S)) → tables.delete first company_id s ≡ r
          → let done = after_model tables first rest (pass tables company_id rest) s r in
            Waits model done.blocked done.state
      by_case later none e = elim (Bool-cases (first == model)) [
        | inl this ↦ inr (rw this refl)
        | inr other ↦
            elim (later s
              (elim w [ inl clear ↦ inl clear | inr waits ↦ inr (ground (arith, waits, other)) ])) [
                | inl clear ↦ inl clear
                | inr blocked ↦ inr (ground (arith, blocked))
              ]
      ]
      by_case later (some (count, after)) e = later after (elim w [
        | inl clear ↦ inl (stays first model count s after e clear)
        | inr waits ↦ elim (Bool-cases (first == model)) [
          | inl this ↦ inl (
              subst (λ m. Cleared m after) ((==_iff first model).0 this)
                (clears first count s after e))
          | inr other ↦ inr (ground (arith, waits, other))
        ]
      ])

  no_model-Cleared :
      (model : ℕ) (models : List ℕ) (s : S)
      → no_model models ≡ true
      → Waits model models s
      → Cleared model s
  no_model-Cleared model models s none_left (inl clear) = clear
  no_model-Cleared model models s none_left (inr blocked) =
      absurd (false-true (none_in model models none_left blocked))

  passes-Cleared :
      (model n : ℕ) (remaining : List ℕ) (deleted total : ℕ) (s after : S)
      → passes tables company_id n remaining deleted s ≡ (ok total, after)
      → Waits model remaining s
      → Cleared model after
  passes-Cleared model zero remaining deleted total s after h w = cc
  passes-Cleared model (suc n) remaining deleted total s after h w =
      let done = pass tables company_id remaining s in
      let again = passes tables company_id n done.blocked (deleted + done.deleted) done.state in
      let kept : Waits model done.blocked done.state = pass-Waits model remaining s w in
      let ended : Bool → Outcome PurgeError ℕ × S =
        λ b. if b then (ok (deleted + done.deleted), done.state) else again in
      elim (Bool-cases (no_model done.blocked)) [
        | inl finished ↦
            let last : (ok (deleted + done.deleted), done.state) ≡ (ok total, after) =
              subst (λ b. ended b ≡ (ok total, after)) finished h in
            subst (Cleared model) (ap (λ r. r.1) last)
              (no_model-Cleared model done.blocked done.state finished kept)
        | inr more ↦
            passes-Cleared model n done.blocked (deleted + done.deleted) total done.state after
              (subst (λ b. ended b ≡ (ok total, after)) more h) kept
      ]

  -- Where the deletion of a table's rows of a company, when no row protects them, leaves none of them,
  -- and no deletion brings rows back: a deletion of the company that does not raise leaves no row of
  -- the company in any table.
  pub delete_company_rows-Cleared :
      (s after : S) (total : ℕ)
      → delete_company_rows tables company_id s ≡ (ok total, after)
      → All (λ model. Cleared model after) tables.models
  unfolding delete_company_rows
  delete_company_rows-Cleared s after total h =
      All-self (λ model. Cleared model after) tables.models
        (λ model here.
          passes-Cleared model (length tables.models + 1) tables.models 0 total s after h
            (inr here))

module _ {S : Type 0} (tables : Tables S) where
  -- The flag of a company is in the table.
  abbrev pub is_flagged : ℕ → List CompanyDeletion → Bool
  is_flagged id rows = any (λ row. row.id == id) rows

  -- A company that is not purged yet, or was purged at most an hour ago.
  abbrev pub Watched : ℕ → Option ℕ → Type 0
  Watched now none = Unit
  Watched now (some completed_at) = now ≤ completed_at + 3600 * second

  Watched-over :
      (now : ℕ) (completed_at : Option ℕ)
      → Watched now completed_at
      → is_over now completed_at ≡ false
  Watched-over now none watched = refl
  Watched-over now (some completed_at) watched = ground (arith, watched)

  after_purge-flagged :
      (now : ℕ) (row : CompanyDeletion) (r : Outcome PurgeError ℕ × S)
      → is_flagged row.id (after_purge tables now row r).0 ≡ true
  after_purge-flagged now row (ok deleted, s) = ground (arith, ==_refl row.id)
  after_purge-flagged now row (raised e, s) = ground (arith, ==_refl row.id)

  sweep_row-flagged :
      (now : ℕ) (row : CompanyDeletion) (s : S)
      → is_over now row.completed_at ≡ false
      → is_flagged row.id (sweep_row tables now row s).0 ≡ true
  sweep_row-flagged now row s within =
      rw within (after_purge-flagged now row (purge_company tables row.company_id s))

  sweep-flagged :
      (in_time : ℕ → Bool) (now turn : ℕ) (before after : List CompanyDeletion)
      (row : CompanyDeletion) (s : S)
      → is_over now row.completed_at ≡ false
      → is_flagged row.id
          (purge_deleted_companies tables in_time now turn (before ++ row ∷ after) s).0
        ≡ true
  unfolding purge_deleted_companies
  sweep-flagged in_time now turn [] after row s within = elim (Bool-cases (in_time turn)) [
    | inl on_time ↦
        rw
          (
            on_time,
            any-append (λ r. r.id == row.id) (sweep_row tables now row s).0
                (purge_deleted_companies tables in_time now (suc turn) after
                  (sweep_row tables now row s).1).0,
            sweep_row-flagged now row s within,
          )
          refl
    | inr late ↦ rw late (ground (arith, ==_refl row.id))
  ]
  sweep-flagged in_time now turn (other ∷ before) after row s within =
      elim (Bool-cases (in_time turn)) [
        | inl on_time ↦
            rw
              (
                on_time,
                any-append (λ r. r.id == row.id) (sweep_row tables now other s).0
                    (purge_deleted_companies tables in_time now (suc turn) (before ++ row ∷ after)
                      (sweep_row tables now other s).1).0,
                sweep-flagged in_time now (suc turn) before after row
                    (sweep_row tables now other s).1 within,
              )
              (ground arith)
        | inr late ↦
            rw (late, any-append (λ r. r.id == row.id) before (row ∷ after), ==_refl row.id)
              (ground arith)
      ]

  -- A run leaves the flag of a company that has not been purged yet, or was purged at most an hour ago,
  -- whatever purges fail, the purge of another company or its own, and wherever the time runs out.
  pub purge_deleted_companies-flagged :
      (in_time : ℕ → Bool) (now turn : ℕ) (before after : List CompanyDeletion)
      (row : CompanyDeletion) (s : S)
      → Watched now row.completed_at
      → is_flagged row.id
          (purge_deleted_companies tables in_time now turn (before ++ row ∷ after) s).0
        ≡ true
  purge_deleted_companies-flagged in_time now turn before after row s watched =
      sweep-flagged in_time now turn before after row s (Watched-over now row.completed_at watched)
