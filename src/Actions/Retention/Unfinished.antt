-- ===== src/Actions/Retention/Unfinished.antt =====
-- apps/actions/retention.py: a purge ends, and leaves the deliveries that are still retried.
use storage_service.Prelude.{
  ℕ, ◌≤◌, ◌≡◌, refl, ap, sym, ◌∙◌, Bool, true, false, not, List, [], ◌∷◌, none, some, arith, keep,
}
use storage_service.Actions.Models.{ActionOutbox, EventLog, ActionDb}
use storage_service.Actions.Outbox.{is_final}
use storage_service.Actions.Retention.{
  Deleted, expired_delivery, expired_event, with_outbox, PurgeStats, no_stats, Purge, after_emails,
  purge_emails, after_webhooks, purge_webhooks, after_events, purge_expired_data, cutoff,
}
use storage_service.Actions.Retention.Purged.{DeletesJust, delete_in_batches-ends}

abbrev pub unfinished : ActionOutbox → Bool
unfinished row = not (is_final row.status)

keep-keep :
    {A : Type 0} (p q : A → Bool) (xs : List A)
    → ((a : A) → q a ≡ true → p a ≡ true)
    → keep q (keep p xs) ≡ keep q xs
keep-keep p q [] h = refl
keep-keep p q (x ∷ xs) h = ground (arith, h x, keep-keep p q xs h)

unfinished-expired :
    (before : ℕ) (webhooks : Bool) (row : ActionOutbox)
    → unfinished row ≡ true
    → not (expired_delivery before webhooks row) ≡ true
unfinished-expired before webhooks row h = ground arith

-- A purge has ended, and the rows that are pending or failed are the same, in the same order.
abbrev pub KeepsUnfinished : List ActionOutbox → Purge → Type 0
KeepsUnfinished rows none = ⊥
KeepsUnfinished rows (some (stats, db)) = keep unfinished db.outbox ≡ keep unfinished rows

deleted-unfinished :
    (before : ℕ) (webhooks : Bool) (rows left : List ActionOutbox)
    → keep (λ a. not (expired_delivery before webhooks a)) left
      ≡ keep (λ a. not (expired_delivery before webhooks a)) rows
    → keep unfinished left ≡ keep unfinished rows
deleted-unfinished before webhooks rows left h =
    let others : ActionOutbox → Bool = λ a. not (expired_delivery before webhooks a) in
    sym (keep-keep others unfinished left (unfinished-expired before webhooks))
    ∙ ap (keep unfinished) h
    ∙ keep-keep others unfinished rows (unfinished-expired before webhooks)

after_emails-Keeps :
    (before : ℕ) (stats : PurgeStats) (db : ActionDb) (o : Deleted ActionOutbox)
    → DeletesJust (expired_delivery before false) 0 db.outbox o
    → KeepsUnfinished db.outbox (after_emails stats db o)
after_emails-Keeps before stats db none h = h
after_emails-Keeps before stats db (some (deleted, finished, left)) h =
    deleted-unfinished before false db.outbox left h.0

KeepsUnfinished-trans :
    (rows rows' : List ActionOutbox)
    → keep unfinished rows ≡ keep unfinished rows'
    → (o : Purge) → KeepsUnfinished rows o
    → KeepsUnfinished rows' o
KeepsUnfinished-trans rows rows' e none k = k
KeepsUnfinished-trans rows rows' e (some (s, d)) k = k ∙ e

after_webhooks-Keeps :
    (before : ℕ) (stats : PurgeStats) (db : ActionDb) (rest : PurgeStats → ActionDb → Purge)
    (o : Deleted ActionOutbox)
    → ((s : PurgeStats) (d : ActionDb) → KeepsUnfinished d.outbox (rest s d))
    → DeletesJust (expired_delivery before true) 0 db.outbox o
    → KeepsUnfinished db.outbox (after_webhooks stats db rest o)
after_webhooks-Keeps before stats db rest none k h = h
after_webhooks-Keeps before stats db rest (some (deleted, false, left)) k h =
    deleted-unfinished before true db.outbox left h.0
after_webhooks-Keeps before stats db rest (some (deleted, true, left)) k h =
    KeepsUnfinished-trans left db.outbox (deleted-unfinished before true db.outbox left h.0)
      (rest (record stats { webhook_deliveries = deleted; complete = true }) (with_outbox db left))
      (k (record stats { webhook_deliveries = deleted; complete = true }) (with_outbox db left))

after_events-Keeps :
    (p : EventLog → Bool) (stats : PurgeStats) (db : ActionDb)
    (rest : PurgeStats → ActionDb → Purge) (o : Deleted EventLog)
    → ((s : PurgeStats) (d : ActionDb) → KeepsUnfinished d.outbox (rest s d))
    → DeletesJust p 0 db.events o
    → KeepsUnfinished db.outbox (after_events stats db rest o)
after_events-Keeps p stats db rest none k h = h
after_events-Keeps p stats db rest (some (deleted, false, left)) k h = refl
after_events-Keeps p stats db rest (some (deleted, true, left)) k h = k _ _

-- With batches of at least one row a purge ends, whatever the clock is and however many days are
-- kept, and the deliveries that are pending or failed are left as they are, in their order.
pub purge_expired_data-KeepsUnfinished :
    (days now batch_size : ℕ) (in_time : ℕ → ℕ → Bool) (db : ActionDb)
    → 1 ≤ batch_size
    → KeepsUnfinished db.outbox (purge_expired_data days now batch_size in_time db)
unfolding purge_expired_data
purge_expired_data-KeepsUnfinished days now batch_size in_time db pos =
    let before = cutoff days now in
    after_events-Keeps (expired_event before) no_stats db
      (purge_webhooks before batch_size (in_time 1) (purge_emails before batch_size (in_time 2))) _
      (λ s d.
        after_webhooks-Keeps before s d (purge_emails before batch_size (in_time 2)) _
          (λ s' d'. after_emails-Keeps before s' d' _ (
            delete_in_batches-ends (expired_delivery before false) batch_size (in_time 2) d'.outbox
              pos))
          (delete_in_batches-ends (expired_delivery before true) batch_size (in_time 1) d.outbox
            pos))
      (delete_in_batches-ends (expired_event before) batch_size (in_time 0) db.events pos)
