-- ===== src/Actions/Outbox/Consistency.antt =====
-- The interleavings of the outbox: every attempt is recorded under its own number, and a delivery
-- that ends late changes nothing.
use storage_service.Prelude.{
  ℕ, ◌≡◌, refl, ap, Bool, true, false, List, [], ◌∷◌, ◌++◌, Option, none, some, arith, find,
  find-append, or_else, update_where, All, All-map, map, range_from, subst, if◌then◌else◌, ◌<◌,
  ◌==◌, not, or_else,
}
use storage_service.Prelude.Outcome.{Outcome, ok}
use storage_service.Json.{Fields}
use storage_service.Actions.Models.{ActionOutbox, ActionSettings, ActionDb}
use storage_service.Actions.Outbox.{
  has_id, is_final, Job, settled, job, job_of, email_event_body, begin_delivery, begun_row,
  Correlation, AttemptMeta, complete_delivery, complete_row, apply_delivery_result, apply_verdict,
  verdict_of, DeliveryError, Verdict,
}
use storage_service.Actions.Outbox.Claim.{
  lease, requeued, claim_next_pending_outbox, claim_row, requeue_delivery, requeue_row,
}
use storage_service.Actions.Outbox.Interleavings.{System, Step, Steps, here, then_step, added}
use storage_service.Actions.Outbox.Rows.{
  Grows, lease-Grows, requeued-Grows, apply_verdict-Grows, Behind, BehindRow, Behind-rewrite,
  Recorded, Recorded-rewrite, Recorded-apply, attempts_of, count_of, job_of-row, find-own,
}

-- What holds between two steps: the attempts are recorded, and every delivery in flight is behind
-- its row.
abbrev pub Consistent : System → Type 0
Consistent s = Recorded s.db × All (Behind s.db.outbox) s.in_flight

All-middle {ℓ κ} :
    {A : Type ℓ} (P : A → Type κ) (before after : List A) (a : A)
    → All P (before ++ a ∷ after)
    → P a × All P (before ++ after)
All-middle P [] after a h = h
All-middle P (b ∷ before) after a h =
    let rest = All-middle P before after a h.1 in (rest.0, (h.0, rest.1))

All-Behind-rewrite :
    (key : ℕ) (f : ActionOutbox → ActionOutbox) (rows : List ActionOutbox) (jobs : List Job)
    → Grows f
    → All (Behind rows) jobs
    → All (Behind (update_where (has_id key) f rows)) jobs
All-Behind-rewrite key f rows jobs g =
    All-map (Behind rows) (Behind (update_where (has_id key) f rows))
      (λ j. Behind-rewrite key f rows j g) jobs

Behind-job :
    (settings : ActionSettings) (db : ActionDb) (row : ActionOutbox) (id : ℕ) (body : Option Fields)
    → find (has_id id) db.outbox ≡ some row
    → is_final row.status ≡ false
    → Behind db.outbox (job_of settings db row body)
Behind-job settings db row id body found open_row =
    rw
      (
        (job_of-row settings db row body).0,
        (job_of-row settings db row body).1,
        find-own id db.outbox row found,
      )
      (omega arith, λ final. cc)

begin-Behind :
    (settings : ActionSettings) (db : ActionDb) (id : ℕ) (j : Job)
    → begin_delivery settings id db ≡ job j
    → Behind db.outbox j
unfolding begin_delivery
begin-Behind settings db id j e = by_row (find (has_id id) db.outbox) refl e
  where
    by_row :
        (o : Option ActionOutbox)
        → find (has_id id) db.outbox ≡ o
        → begun_row settings db o ≡ job j
        → Behind db.outbox j
    by_row none found k = cc
    by_row (some row) found k = by_status (is_final row.status) refl k
      where
        by_status :
            (final : Bool)
            → is_final row.status ≡ final
            → (if final
                then settled row
                else job (job_of settings db row (email_event_body row.delivery_kind row.envelope)))
              ≡ job j
            → Behind db.outbox j
        by_status true e l = cc
        by_status false e l =
            let same : job_of settings db row (email_event_body row.delivery_kind row.envelope)
                ≡ j =
              cc in
            subst (Behind db.outbox) same (
              Behind-job settings db row id (email_event_body row.delivery_kind row.envelope) found
                e)

apply-Consistent :
    (settings : ActionSettings) (db : ActionDb) (jobs : List Job) (now : ℕ) (v : Verdict)
    (by : Correlation) (row : ActionOutbox)
    → find (has_id row.id) db.outbox ≡ some row
    → Recorded db
    → All (Behind db.outbox) jobs
    → Consistent (record { db = apply_delivery_result settings now v by row db; in_flight = jobs })
unfolding apply_delivery_result
apply-Consistent settings db jobs now v by row found r h = (
  Recorded-apply settings now v by row db found r,
  All-Behind-rewrite row.id (apply_verdict settings now v) db.outbox jobs
      (apply_verdict-Grows settings now v) h,
)

complete-Consistent :
    (settings : ActionSettings) (db : ActionDb) (jobs : List Job) (j : Job) (now : ℕ)
    (by : Correlation) (sent : Bool × AttemptMeta)
    → Recorded db
    → All (Behind db.outbox) jobs
    → Consistent (record { db = (complete_delivery settings now by j sent db).1; in_flight = jobs })
unfolding complete_delivery
complete-Consistent settings db jobs j now by sent r h =
    by_row (find (has_id j.outbox_id) db.outbox) refl
  where
    v : Verdict
    v = verdict_of settings j.terminal_error sent.0 sent.1

    Result : Outcome DeliveryError (Option ActionOutbox) × ActionDb → Type 0
    Result r = Consistent (record { db = r.1; in_flight = jobs })

    by_row :
        (o : Option ActionOutbox)
        → find (has_id j.outbox_id) db.outbox ≡ o
        → Result (complete_row settings now v by j.snapshot_attempt o db)
    by_row none found = (r, h)
    by_row (some row) found = by_snapshot (row.attempt_count == j.snapshot_attempt) (
        apply-Consistent settings db jobs now v by row (find-own j.outbox_id db.outbox row found) r
          h)
      where
        by_snapshot :
            (same : Bool)
            → Consistent
                (record { db = apply_delivery_result settings now v by row db; in_flight = jobs })
            → Result (
                if not same then (ok (some row), db) else (
                  ok (some (apply_verdict settings now v row)),
                  apply_delivery_result settings now v by row db,
                ))
        by_snapshot true k = k
        by_snapshot false k = (r, h)

claim-Consistent :
    (db : ActionDb) (jobs : List Job) (until : ℕ) (o : Option ActionOutbox)
    → Recorded db
    → All (Behind db.outbox) jobs
    → Consistent (record { db = (claim_row until db o).1; in_flight = jobs })
claim-Consistent db jobs until none r h = (r, h)
claim-Consistent db jobs until (some row) r h = (
  Recorded-rewrite row.id (lease until) db (λ a. (refl, refl)) r,
  All-Behind-rewrite row.id (lease until) db.outbox jobs (lease-Grows until) h,
)

requeue-Consistent :
    (db : ActionDb) (jobs : List Job) (o : Option ActionOutbox)
    → Recorded db
    → All (Behind db.outbox) jobs
    → Consistent (record { db = (requeue_row db o).1; in_flight = jobs })
requeue-Consistent db jobs none r h = (r, h)
requeue-Consistent db jobs (some row) r h = (
  Recorded-rewrite row.id requeued db (λ a. (refl, refl)) r,
  All-Behind-rewrite row.id requeued db.outbox jobs requeued-Grows h,
)

Behind-added :
    (rows : List ActionOutbox) (row : ActionOutbox) (j : Job)
    → Behind rows j
    → Behind (rows ++ row ∷ []) j
Behind-added rows row j h =
    rw (find-append (has_id j.outbox_id) rows (row ∷ []))
      (by_case (find (has_id j.outbox_id) rows) h)
  where
    by_case :
        (o : Option ActionOutbox)
        → BehindRow j.snapshot_attempt o
        → BehindRow j.snapshot_attempt (or_else o (find (has_id j.outbox_id) (row ∷ [])))
    by_case none h = elim h [ ]
    by_case (some a) h = h

Recorded-added :
    (db : ActionDb) (row : ActionOutbox)
    → row.attempt_count ≡ 0
    → Recorded db
    → Recorded (added row db)
Recorded-added db row zero_attempts r id =
    rw (r id, find-append (has_id id) db.outbox (row ∷ []))
      (ap (range_from 1) (by_case (find (has_id id) db.outbox)))
  where
    by_case :
        (o : Option ActionOutbox) → count_of o ≡ count_of (or_else o (find (has_id id) (row ∷ [])))
    by_case none = ground (arith, zero_attempts)
    by_case (some a) = refl

Step-Consistent :
    (settings : ActionSettings) (s t : System) → Step settings s t → Consistent s → Consistent t
unfolding claim_next_pending_outbox requeue_delivery
Step-Consistent settings s t (Step.begin db jobs id j e) (r, h) =
    (r, (begin-Behind settings db id j e, h))
Step-Consistent settings s t (Step.complete db before after j now by sent) (r, h) =
    complete-Consistent settings db (before ++ after) j now by sent r
      (All-middle (Behind db.outbox) before after j h).1
Step-Consistent settings s t (Step.crash db before after j) (r, h) =
    (r, (All-middle (Behind db.outbox) before after j h).1)
Step-Consistent settings s t (Step.claim db jobs nulls_first skipped now) (r, h) =
    claim-Consistent db jobs _ _ r h
Step-Consistent settings s t (Step.requeue db jobs company_id id) (r, h) =
    requeue-Consistent db jobs _ r h
Step-Consistent settings s t (Step.emit db jobs row fresh zero_attempts) (r, h) = (
  Recorded-added db row zero_attempts r,
  All-map (Behind db.outbox) (Behind (added row db).outbox) (Behind-added db.outbox row) jobs h,
)

pub Steps-Consistent :
    (settings : ActionSettings) (s t : System) → Steps settings s t → Consistent s → Consistent t
Steps-Consistent settings s t (here s') c = c
Steps-Consistent settings s t (then_step s' u t' run last) c =
    Step-Consistent settings u t' last (Steps-Consistent settings s' u run c)

-- From tables with recorded attempts and no delivery in flight, after any interleaving of steps,
-- the attempts recorded for a key are numbered 1, 2, and so on, in this order, up to the number of
-- attempts of the row found by the key.
pub attempts-Recorded :
    (settings : ActionSettings) (db : ActionDb) (t : System)
    → Recorded db
    → Steps settings (record { db = db; in_flight = [] }) t
    → (id : ℕ)
    → map (λ a. a.attempt_number) (attempts_of id t.db.attempts)
      ≡ range_from 1 (count_of (find (has_id id) t.db.outbox))
attempts-Recorded settings db t r run id =
    (Steps-Consistent settings (record { db = db; in_flight = [] }) t run (r, tt)).0 id

late_complete :
    (settings : ActionSettings) (db : ActionDb) (j : Job) (row : ActionOutbox) (now : ℕ)
    (by : Correlation) (sent : Bool × AttemptMeta)
    → find (has_id j.outbox_id) db.outbox ≡ some row
    → is_final row.status ≡ true
    → Behind db.outbox j
    → complete_delivery settings now by j sent db ≡ (ok (some row), db)
unfolding complete_delivery
late_complete settings db j row now by sent found final h =
    let later : j.snapshot_attempt < row.attempt_count =
      (subst (BehindRow j.snapshot_attempt) found h).1 final in
    rw found (ground arith)

-- After any interleaving of steps that starts with recorded attempts and no delivery in flight, a
-- delivery in flight whose row is delivered or dead ends without any change to the tables, whatever
-- its request has come to, and returns the row.
pub final_row_kept :
    (settings : ActionSettings) (db : ActionDb) (t : System)
    → Recorded db
    → Steps settings (record { db = db; in_flight = [] }) t
    → (before after : List Job) (j : Job) → t.in_flight ≡ before ++ j ∷ after
    → (row : ActionOutbox) → find (has_id j.outbox_id) t.db.outbox ≡ some row
    → is_final row.status ≡ true
    → (now : ℕ) (by : Correlation) (sent : Bool × AttemptMeta)
    → complete_delivery settings now by j sent t.db ≡ (ok (some row), t.db)
final_row_kept settings db t r run before after j here_is row found final now by sent =
    let behind = (Steps-Consistent settings (record { db = db; in_flight = [] }) t run (r, tt)).1 in
    late_complete settings t.db j row now by sent found final
      (All-middle (Behind t.db.outbox) before after j
        (subst (All (Behind t.db.outbox)) here_is behind)).0
