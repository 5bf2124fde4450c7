-- ===== src/Actions/Outbox/Interleavings.antt =====
-- apps/actions/delivery.py, `deliver_outbox_row` and `claim_next_pending_outbox`, with any number
-- of workers, and the view that queues a delivery again. Each transaction is one step; between
-- the two transactions of a delivery its worker holds what it has read, and any other step may
-- happen. Rows are added by the emission of events; their deletion (retention, company deletion)
-- is not one of these steps.
use storage_service.Prelude.{ℕ, ◌≡◌, Bool, List, [], ◌∷◌, ◌++◌, none, find}
use storage_service.Actions.Models.{ActionOutbox, ActionSettings, ActionDb}
use storage_service.Actions.Outbox.{
  has_id, Job, job, begin_delivery, Correlation, AttemptMeta, complete_delivery,
}
use storage_service.Actions.Outbox.Claim.{claim_next_pending_outbox, requeue_delivery}
use storage_service.Actions.Outbox.Rows.{}

-- The tables, and the deliveries whose first transaction is over and whose second is not.
pub record System : Type 0 where
  pub db : ActionDb
  pub in_flight : List Job

abbrev pub added : ActionOutbox → ActionDb → ActionDb
added row db = record db { outbox = db.outbox ++ row ∷ [] }

-- One transaction of one worker. `crash` is a worker that ends between its two
-- transactions, also by an exception of its request.
pub data Step (settings : ActionSettings) : System → System → Type 0 where
  begin :
      (db : ActionDb) (jobs : List Job) (id : ℕ) (j : Job)
      → begin_delivery settings id db ≡ job j
      → Step settings
          (record { db = db; in_flight = jobs })
          (record { db = db; in_flight = j ∷ jobs })
  complete :
      (db : ActionDb) (before after : List Job) (j : Job) (now : ℕ) (by : Correlation)
      (sent : Bool × AttemptMeta)
      → Step settings
          (record { db = db; in_flight = before ++ j ∷ after })
          (record {
            db = (complete_delivery settings now by j sent db).1;
            in_flight = before ++ after;
          })
  crash :
      (db : ActionDb) (before after : List Job) (j : Job)
      → Step settings
          (record { db = db; in_flight = before ++ j ∷ after })
          (record { db = db; in_flight = before ++ after })
  claim :
      (db : ActionDb) (jobs : List Job) (nulls_first : Bool) (skipped : ActionOutbox → Bool)
      (now : ℕ)
      → Step settings
          (record { db = db; in_flight = jobs })
          (record {
            db = (claim_next_pending_outbox settings nulls_first skipped now db).1;
            in_flight = jobs;
          })
  requeue :
      (db : ActionDb) (jobs : List Job) (company_id id : ℕ)
      → Step settings
          (record { db = db; in_flight = jobs })
          (record { db = (requeue_delivery company_id id db).1; in_flight = jobs })
  emit :
      (db : ActionDb) (jobs : List Job) (row : ActionOutbox)
      → find (has_id row.id) db.outbox ≡ none
      → row.attempt_count ≡ 0
      → Step settings
          (record { db = db; in_flight = jobs })
          (record { db = added row db; in_flight = jobs })

pub data Steps (settings : ActionSettings) : System → System → Type 0 where
  here : (s : System) → Steps settings s s
  then_step : (s t u : System) → Steps settings s t → Step settings t u → Steps settings s u
