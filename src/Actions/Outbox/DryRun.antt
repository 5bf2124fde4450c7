-- ===== src/Actions/Outbox/DryRun.antt =====
-- apps/actions/delivery.py, `retry_pending_webhooks` with `dry_run` and one worker: a turn gives
-- the row that it has claimed back as it was, and the next turn claims it again.
use storage_service.Prelude.{
  ℕ, zero, suc, ◌+◌, ◌*◌, ◌≤◌, ◌<◌, ◌≡◌, refl, ap, inl, inr, Bool, true, false, ◌&&◌, not, List, [],
  ◌∷◌, none, some, arith, ltb, ltb→lt, update_where, any, keep, Bool-cases,
}
use storage_service.Prelude.Outcome.{ok}
use storage_service.Actions.Models.{ActionOutbox, ActionSettings, ActionDb}
use storage_service.Actions.Outbox.{has_id, second}
use storage_service.Actions.Outbox.Claim.{
  claim_next_pending_outbox, claim_row, first_ordered, stands_before, lease, pending_outbox,
}
use storage_service.Actions.Outbox.Batch.{
  Stats, empty_stats, dry_stats, unlocked, release, Run, RunResult, retry_loop,
  retry_pending_webhooks,
}

first_ordered-some :
    (nulls_first : Bool) (best : ActionOutbox) (rows : List ActionOutbox)
    → (row : ActionOutbox) × (first_ordered nulls_first (some best) rows ≡ some row)
first_ordered-some nulls_first best [] = (best, refl)
first_ordered-some nulls_first best (x ∷ rows) =
    elim (Bool-cases (stands_before nulls_first x best)) [
      | inl before ↦ rw before (first_ordered-some nulls_first x rows)
      | inr after ↦ rw after (first_ordered-some nulls_first best rows)
    ]

first_ordered-keep :
    (nulls_first : Bool) (p : ActionOutbox → Bool) (rows : List ActionOutbox)
    → any p rows ≡ true
    → (row : ActionOutbox) × (first_ordered nulls_first none (keep p rows) ≡ some row)
first_ordered-keep nulls_first p [] h = cc
first_ordered-keep nulls_first p (x ∷ rows) h = elim (Bool-cases (p x)) [
  | inl this ↦ rw this (first_ordered-some nulls_first x (keep p rows))
  | inr other ↦ rw other (first_ordered-keep nulls_first p rows (ground arith))
]

-- A row that is pending stays pending when it is claimed and given back.
any-given_back :
    (now until key : ℕ) (rows : List ActionOutbox)
    → any (pending_outbox now) rows ≡ true
    → any
        (pending_outbox now)
        (update_where (has_id key) unlocked (update_where (has_id key) (lease until) rows))
      ≡ true
any-given_back now until key [] h = h
any-given_back now until key (row ∷ rows) h = ground (arith, any-given_back now until key rows)

-- A run has ended with as many processed rows as the batch has.
abbrev pub FillsBatch : ℕ → RunResult → Type 0
FillsBatch batch_size r =
    (stats : Stats) × (db : ActionDb) × (r ≡ some (ok stats, db)) × (stats.processed ≡ batch_size)

claim-some :
    (settings : ActionSettings) (nulls_first : Bool) (skipped : ActionOutbox → Bool) (now : ℕ)
    (db : ActionDb)
    → any (λ r. pending_outbox now r && not (skipped r)) db.outbox ≡ true
    → (row : ActionOutbox) × (claim_next_pending_outbox settings nulls_first skipped now db
        ≡ claim_row (now + settings.retry_lease_seconds * second) db (some row))
unfolding claim_next_pending_outbox
claim-some settings nulls_first skipped now db h =
    let (row, e) =
      first_ordered-keep nulls_first (λ r. pending_outbox now r && not (skipped r)) db.outbox h in
    (row, ap (claim_row (now + settings.retry_lease_seconds * second) db) e)

any-unskipped :
    (p q : ActionOutbox → Bool) (rows : List ActionOutbox)
    → ((r : ActionOutbox) → q r ≡ false)
    → any p rows ≡ true
    → any (λ r. p r && not (q r)) rows ≡ true
any-unskipped p q [] free h = h
any-unskipped p q (x ∷ rows) free h = ground (arith, free x, any-unskipped p q rows free)

module _ (settings : ActionSettings) (run : Run) (dry : run.dry_run ≡ true)
    (in_time : (turn : ℕ) → run.in_time turn ≡ true)
    (free : (turn : ℕ) (row : ActionOutbox) → run.skipped turn row ≡ false) where
  retry_loop-Fills :
      (fuel turn : ℕ) (stats : Stats) (db : ActionDb)
      → run.batch_size < fuel + stats.processed
      → stats.processed ≤ run.batch_size
      → any (pending_outbox run.now) db.outbox ≡ true
      → FillsBatch run.batch_size (retry_loop settings run fuel turn stats db)
  unfolding retry_loop
  retry_loop-Fills zero turn stats db enough within pending = absurd (omega (arith, enough, within))
  retry_loop-Fills (suc fuel) turn stats db enough within pending =
      elim (Bool-cases (ltb stats.processed run.batch_size)) [
        | inr full ↦ (stats, db, rw full refl, ground arith)
        | inl below ↦
            let until = run.now + settings.retry_lease_seconds * second in
            let (row, claimed) = claim-some settings run.nulls_first (run.skipped turn) run.now db (
              any-unskipped (pending_outbox run.now) (run.skipped turn) db.outbox (free turn)
                pending) in
            rw (below, in_time turn, claimed, dry)
              (retry_loop-Fills fuel (suc turn) (dry_stats (lease until row) stats)
                (release (lease until row) (claim_row until db (some row)).1)
                (omega (arith, enough)) (omega (arith, ltb→lt stats.processed run.batch_size below))
                (any-given_back run.now until row.id db.outbox pending))
      ]

  -- A dry run with one worker that stays in time, while no other transaction locks a row, reports as
  -- many processed rows as the batch has as soon as one row is pending.
  pub dry_run-FillsBatch :
      (db : ActionDb)
      → any (pending_outbox run.now) db.outbox ≡ true
      → FillsBatch run.batch_size (retry_pending_webhooks settings run db)
  unfolding retry_pending_webhooks
  dry_run-FillsBatch db pending =
      retry_loop-Fills (suc run.batch_size) 0 empty_stats db (omega arith) (omega arith) pending
