-- ===== src/Actions/CompanyDeletion.antt =====
-- apps/actions/company_deletion.py, without the assertion's signature: the flag of a company, the
-- passes over its tables, and the run that purges the flagged companies. `Tables` is what the ORM does:
-- `delete` removes the rows of a company from one table, with their number, and is none where they are
-- protected by rows of another table; `blobs` is the hook, none where it raises. A time is a number of
-- microseconds.
pub mod Purges
use storage_service.Prelude.{
  ℕ, zero, suc, ◌+◌, ◌-◌, ◌*◌, Bool, true, false, not, List, [], ◌∷◌, ◌++◌, Option, none, some,
  ◌==◌, ltb, if◌then◌else◌, find, update_where, length,
}
use storage_service.Prelude.Outcome.{Outcome, ok, raised}
use storage_service.Actions.Outbox.{second}

pub record CompanyDeletion : Type 0 where
  pub id : ℕ
  pub company_id : ℕ
  pub completed_at : Option ℕ

-- `flag_company_deletion`.
abbrev pub is_of_company : ℕ → CompanyDeletion → Bool
is_of_company company_id row = row.company_id == company_id

abbrev pub asked_again : CompanyDeletion → CompanyDeletion
asked_again row = record row { completed_at = none }

abbrev pub flag_found : ℕ → ℕ → List CompanyDeletion → Option CompanyDeletion → List CompanyDeletion
flag_found fresh company_id rows none =
    rows ++ record { id = fresh; company_id = company_id; completed_at = none } ∷ []
flag_found fresh company_id rows (some row) = update_where (λ r. r.id == row.id) asked_again rows

unfoldable pub flag_company_deletion : ℕ → ℕ → List CompanyDeletion → List CompanyDeletion
flag_company_deletion fresh company_id rows =
    flag_found fresh company_id rows (find (is_of_company company_id) rows)

pub record Tables (S : Type 0) : Type 0 where
  pub models : List ℕ
  pub delete : ℕ → ℕ → S → Option (ℕ × S)
  pub blobs : ℕ → S → Option S

pub data PurgeError : Type 0 where
  runtime_error hook_error : PurgeError

-- What a pass over the tables leaves: the number of deleted rows, and the tables that were protected.
pub record Pass (S : Type 0) : Type 0 where
  pub deleted : ℕ
  pub blocked : List ℕ
  pub state : S

abbrev pub no_model : List ℕ → Bool
no_model [] = true
no_model (model ∷ rest) = false

-- `SWEEP_WINDOW`, an hour.
abbrev pub is_over : ℕ → Option ℕ → Bool
is_over now none = false
is_over now (some completed_at) = ltb completed_at (now - 3600 * second)

abbrev pub completed : ℕ → Option ℕ → Option ℕ
completed now none = some now
completed now (some at) = some at

module _ {S : Type 0} (tables : Tables S) where
  abbrev pub after_model : ℕ → List ℕ → (S → Pass S) → S → Option (ℕ × S) → Pass S
  after_model model rest again s none =
      let later = again s in record later { blocked = model ∷ later.blocked }
  after_model model rest again s (some (count, s')) =
      let later = again s' in record later { deleted = count + later.deleted }

  abbrev pub pass : ℕ → List ℕ → S → Pass S
  pass company_id [] s = record { deleted = 0; blocked = []; state = s }
  pass company_id (model ∷ rest) s =
      after_model model rest (pass company_id rest) s (tables.delete model company_id s)

  abbrev pub passes : ℕ → ℕ → List ℕ → ℕ → S → Outcome PurgeError ℕ × S
  passes company_id zero remaining deleted s = (raised runtime_error, s)
  passes company_id (suc n) remaining deleted s =
      let done = pass company_id remaining s in
      let again = passes company_id n done.blocked (deleted + done.deleted) done.state in
      if no_model done.blocked then (ok (deleted + done.deleted), done.state) else again

  unfoldable pub delete_company_rows : ℕ → S → Outcome PurgeError ℕ × S
  delete_company_rows company_id s = passes company_id (length tables.models + 1) tables.models 0 s

  abbrev pub after_blobs : ℕ → S → Option S → Outcome PurgeError ℕ × S
  after_blobs company_id s none = (raised hook_error, s)
  after_blobs company_id s (some s') = delete_company_rows company_id s'

  unfoldable pub purge_company : ℕ → S → Outcome PurgeError ℕ × S
  purge_company company_id s = after_blobs company_id s (tables.blobs company_id s)

  -- The flags that are left of one flag, and the tables.
  abbrev pub after_purge : ℕ → CompanyDeletion → Outcome PurgeError ℕ × S → List CompanyDeletion × S
  after_purge now row (ok deleted, s) =
      (record row { completed_at = completed now row.completed_at } ∷ [], s)
  after_purge now row (raised e, s) = (row ∷ [], s)

  abbrev pub sweep_row : ℕ → CompanyDeletion → S → List CompanyDeletion × S
  sweep_row now row s =
      if is_over now row.completed_at
      then ([], s)
      else after_purge now row (purge_company row.company_id s)

  -- `purge_deleted_companies`, on the flags in their order; `in_time` says for each turn whether the
  -- deadline is not over.
  unfoldable pub purge_deleted_companies :
      (ℕ → Bool) → ℕ → ℕ → List CompanyDeletion → S → List CompanyDeletion × S
  purge_deleted_companies in_time now turn [] s = ([], s)
  purge_deleted_companies in_time now turn (row ∷ rows) s =
      let swept = sweep_row now row s in
      let later = purge_deleted_companies in_time now (suc turn) rows swept.1 in
      if in_time turn then (swept.0 ++ later.0, later.1) else (row ∷ rows, s)
