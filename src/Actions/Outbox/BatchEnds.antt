-- ===== src/Actions/Outbox/BatchEnds.antt =====
-- apps/actions/delivery.py, `retry_pending_webhooks` with one worker: the loop ends.
use storage_service.Prelude.{
  ℕ, zero, suc, ◌+◌, ◌*◌, ◌≤◌, ◌<◌, ◌≡◌, refl, ap, subst, ◌⊎◌, inl, inr, Bool, true, ◌&&◌, not,
  List, [], ◌∷◌, Option, none, some, arith, ltb, ltb→lt, if◌then◌else◌, update_where, find, any,
  keep, Bool-cases, &&-split,
}
use storage_service.Prelude.Outcome.{ok, raised}
use storage_service.Text.{Text}
use storage_service.Actions.Models.{
  Status, Trigger, DeliveryKind, ActionOutbox, ActionSettings, ActionDb,
}
use storage_service.Actions.Outbox.{
  has_id, is_final, Job, RequestResult, requested, request_raised, deliver_outbox_row, Correlation,
  second,
}
use storage_service.Actions.Outbox.Claim.{
  claim_next_pending_outbox, claim_row, first_ordered, first_of, stands_before, lease,
  pending_outbox,
}
use storage_service.Actions.Outbox.Rows.{find-rewrite, has_id_refl}
use storage_service.Actions.Outbox.Progress.{
  job_for, deliver-open, deliver-raised, deliver-final, RequestResult-cases, requested-raised,
}
use storage_service.Actions.Outbox.Batch.{
  Stats, empty_stats, merge_stats, status_stats, with_email, summarize_delivery_result, dry_stats,
  release, Run, RunResult, turn_with, retry_loop, retry_pending_webhooks,
}

some_injective : {a b : ActionOutbox} → some a ≡ some b → a ≡ b
some_injective h = cc

first_of-some :
    (nulls_first : Bool) (best : Option ActionOutbox) (x row : ActionOutbox)
    → first_of nulls_first best x ≡ some row
    → (best ≡ some row) ⊎ (has_id row.id x ≡ true)
first_of-some nulls_first none x row h =
    inr (subst (λ r. has_id r.id x ≡ true) (some_injective h) (has_id_refl x))
first_of-some nulls_first (some best) x row h =
    elim (Bool-cases (stands_before nulls_first x best)) [
      | inl before ↦
          let same : some x ≡ some row =
            subst (λ b. (if b then some x else some best) ≡ some row) before h in
          inr (subst (λ r. has_id r.id x ≡ true) (some_injective same) (has_id_refl x))
      | inr after ↦ inl (subst (λ b. (if b then some x else some best) ≡ some row) after h)
    ]

first_ordered-Present :
    (nulls_first : Bool) (best : Option ActionOutbox) (rows : List ActionOutbox)
    (row : ActionOutbox)
    → first_ordered nulls_first best rows ≡ some row
    → (best ≡ some row) ⊎ (any (has_id row.id) rows ≡ true)
first_ordered-Present nulls_first best [] row h = inl h
first_ordered-Present nulls_first best (x ∷ rows) row h =
    elim (first_ordered-Present nulls_first (first_of nulls_first best x) rows row h) [
      | inl e ↦ elim (first_of-some nulls_first best x row e) [
        | inl before ↦ inl before
        | inr this ↦ inr (ground arith)
      ]
      | inr later ↦ inr (ground arith)
    ]

any-find :
    (p : ActionOutbox → Bool) (rows : List ActionOutbox)
    → any p rows ≡ true
    → (row : ActionOutbox) × (find p rows ≡ some row)
any-find p [] h = cc
any-find p (x ∷ rows) h = elim (Bool-cases (p x)) [
  | inl this ↦ (x, ground arith)
  | inr other ↦ let (row, found) = any-find p rows (ground arith) in (row, ground arith)
]

any-of-keep :
    (p q : ActionOutbox → Bool) (rows : List ActionOutbox)
    → any p (keep q rows) ≡ true
    → any p rows ≡ true
any-of-keep p q [] h = h
any-of-keep p q (x ∷ rows) h = ground (arith, any-of-keep p q rows)

claim_row-found :
    (until : ℕ) (db : ActionDb) (o : Option ActionOutbox) (row : ActionOutbox)
    → ((best : ActionOutbox) → o ≡ some best → any (has_id best.id) db.outbox ≡ true)
    → (claim_row until db o).0 ≡ some row
    → (r : ActionOutbox) × (find (has_id row.id) (claim_row until db o).1.outbox ≡ some r)
claim_row-found until db none row present h = cc
claim_row-found until db (some best) row present h =
    let (r, found) = any-find (has_id best.id) db.outbox (present best refl) in
    subst
      (λ x.
        (r : ActionOutbox) × (find (has_id x.id)
            (update_where (has_id best.id) (lease until) db.outbox)
          ≡ some r))
      (some_injective h)
      (
        if has_id best.id r then lease until r else r,
        rw (find-rewrite best.id best.id (lease until) db.outbox (λ _. refl), found) refl,
      )

-- The row of a claim is in the table.
pub claimed-found :
    (settings : ActionSettings) (nulls_first : Bool) (skipped : ActionOutbox → Bool) (now : ℕ)
    (db : ActionDb) (row : ActionOutbox)
    → (claim_next_pending_outbox settings nulls_first skipped now db).0 ≡ some row
    → (r : ActionOutbox) × (find
          (has_id row.id)
          (claim_next_pending_outbox settings nulls_first skipped now db).1.outbox
        ≡ some r)
unfolding claim_next_pending_outbox
claimed-found settings nulls_first skipped now db row h =
    let claimable : ActionOutbox → Bool = λ r. pending_outbox now r && not (skipped r) in
    let first = first_ordered nulls_first none (keep claimable db.outbox) in
    claim_row-found (now + settings.retry_lease_seconds * second) db first row
      (λ best e. elim (first_ordered-Present nulls_first none (keep claimable db.outbox) best e) [
        | inl impossible ↦ cc
        | inr kept ↦ any-of-keep (has_id best.id) claimable db.outbox kept
      ])
      h

-- An attempt on a row that is there returns it, or raises what its request has raised.
deliver-ends :
    (settings : ActionSettings) (now : ℕ) (by : Correlation) (send : Job → RequestResult) (id : ℕ)
    (db : ActionDb) (row : ActionOutbox)
    → find (has_id id) db.outbox ≡ some row
    → ((after : ActionOutbox) × (db' : ActionDb) × (deliver_outbox_row settings now by send id db
          ≡ (ok (some after), db')))
      ⊎ ((j : Job) × (e : Text) × (send j ≡ raised e)
          × (deliver_outbox_row settings now by send id db ≡ (raised (request_raised e), db)))
deliver-ends settings now by send id db row found = elim (Bool-cases (is_final row.status)) [
  | inl final ↦ inl (row, db, deliver-final settings now by send id db row found final)
  | inr open_row ↦ elim (RequestResult-cases (requested send (job_for settings db row))) [
    | inl (sent, returned) ↦
        inl (_, _, deliver-open settings now by send id db row sent found open_row returned)
    | inr (e, failed) ↦ inr (
      job_for settings db row,
      e,
      requested-raised send (job_for settings db row) e failed,
      deliver-raised settings now by send id db row e found open_row failed,
    )
  ]
]

summarize-processed :
    (before : Status) (after : ActionOutbox)
    → (summarize_delivery_result before (some after)).processed ≡ 1
unfolding summarize_delivery_result
summarize-processed before after = by_case after.delivery_kind after.status
  where
    by_case :
        (kind : DeliveryKind) (status : Status)
        → (with_email kind (status_stats before status)).processed ≡ 1
    by_case DeliveryKind.webhook Status.pending = refl
    by_case DeliveryKind.webhook Status.delivered = refl
    by_case DeliveryKind.webhook Status.failed = refl
    by_case DeliveryKind.webhook Status.dead = refl
    by_case DeliveryKind.email Status.pending = refl
    by_case DeliveryKind.email Status.delivered = refl
    by_case DeliveryKind.email Status.failed = refl
    by_case DeliveryKind.email Status.dead = refl

-- A run has ended: with counters, of at most the batch, or with an exception that the request of one
-- of its turns has raised.
abbrev pub EndsWithin : Run → RunResult → Type 0
EndsWithin run r =
    ((stats : Stats) × (db : ActionDb) × (r ≡ some (ok stats, db))
      × (stats.processed ≤ run.batch_size))
    ⊎ ((turn : ℕ) × (j : Job) × (e : Text) × (db : ActionDb) × (run.send turn j ≡ raised e)
        × (r ≡ some (raised (request_raised e), db)))

module _ (settings : ActionSettings) (run : Run) where
  turn-Ends :
      (turn : ℕ) (stats : Stats) (again : Stats → ActionDb → RunResult)
      → stats.processed < run.batch_size
      → ((s : Stats) (d : ActionDb)
          → s.processed ≡ stats.processed + 1
          → EndsWithin run (again s d))
      → (claimed : Option ActionOutbox × ActionDb)
      → ((row : ActionOutbox)
          → claimed.0 ≡ some row
          → (r : ActionOutbox) × (find (has_id row.id) claimed.1.outbox ≡ some r))
      → EndsWithin run (turn_with settings run turn stats again claimed)
  turn-Ends turn stats again below ends (none, db) found =
      inl (stats, db, refl, omega (arith, below))
  turn-Ends turn stats again below ends (some row, db) found = elim (Bool-cases run.dry_run) [
    | inl dry ↦ rw dry (ends (dry_stats row stats) (release row db) refl)
    | inr wet ↦
        let (r, present) = found row refl in
        elim (deliver-ends settings (run.clock turn)
          (Trigger.automatic_retry, run.scheduled_job_run_id) (run.send turn) row.id db r present) [
            | inl (after, db', returned) ↦
                rw (wet, returned)
                  (ends (merge_stats stats (summarize_delivery_result row.status (some after))) db'
                    (ap (λ n. stats.processed + n) (summarize-processed row.status after)))
            | inr (j, e, failed, ended) ↦ rw (wet, ended) (inr (turn, j, e, db, failed, refl))
          ]
  ]

  retry_loop-Ends :
      (fuel turn : ℕ) (stats : Stats) (db : ActionDb)
      → run.batch_size < fuel + stats.processed
      → stats.processed ≤ run.batch_size
      → EndsWithin run (retry_loop settings run fuel turn stats db)
  unfolding retry_loop
  retry_loop-Ends zero turn stats db enough within = absurd (omega (arith, enough, within))
  retry_loop-Ends (suc fuel) turn stats db enough within =
      elim (Bool-cases (ltb stats.processed run.batch_size && run.in_time turn)) [
        | inr stop ↦ inl (stats, db, rw stop refl, within)
        | inl go ↦
            let below = ltb→lt stats.processed run.batch_size (&&-split _ _ go).0 in
            rw go (
              turn-Ends turn stats (retry_loop settings run fuel (suc turn)) below
                (λ s d e.
                  retry_loop-Ends fuel (suc turn) s d (omega (arith, enough, e))
                    (omega (arith, below, e)))
                (claim_next_pending_outbox settings run.nulls_first (run.skipped turn) run.now db)
                (λ row e.
                  claimed-found settings run.nulls_first (run.skipped turn) run.now db row e))
      ]

-- A run with one worker ends, whatever the clocks and the locks of others are: with counters, and that
-- of the processed rows is at most the batch, or with an exception that the request of one of its
-- turns has raised. No row that it has claimed is missing when it is attempted.
pub retry_ends :
    (settings : ActionSettings) (run : Run) (db : ActionDb)
    → EndsWithin run (retry_pending_webhooks settings run db)
unfolding retry_pending_webhooks
retry_ends settings run db =
    retry_loop-Ends settings run (suc run.batch_size) 0 empty_stats db (omega arith) (omega arith)
