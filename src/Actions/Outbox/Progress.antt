-- ===== src/Actions/Outbox/Progress.antt =====
-- apps/actions/delivery.py, `deliver_outbox_row` with no other worker between its transactions:
-- what one attempt makes of its row, and that attempts come to an end.
use storage_service.Prelude.{
  ℕ, ◌+◌, ◌≤◌, ◌<◌, ◌≡◌, refl, ◌⊎◌, inl, inr, Bool, true, false, List, [], ◌∷◌, Option, none, some,
  arith, find, sym, subst, ==_refl, Bool-cases,
}
use storage_service.Prelude.Outcome.{Outcome, ok, raised}
use storage_service.Text.{Text, codes}
use storage_service.Actions.Models.{Status, ActionRule, ActionOutbox, ActionSettings, ActionDb}
use storage_service.Actions.Outbox.{
  has_id, is_final, Job, job_of, email_event_body, begin_delivery, Correlation, AttemptMeta,
  complete_delivery, apply_delivery_result, apply_verdict, verdict_of, Verdict, deliver_outbox_row,
  usable_rule, rule_of, RequestResult, requested, unless_terminal, no_meta, DeliveryError,
  request_raised, is_webhook_kind,
}
use storage_service.Actions.Outbox.Rows.{
  job_of-row, find-own, find-rewrite, apply_verdict-count, has_id_refl,
}

-- What the first transaction reads for a row that is not final.
abbrev pub job_for : ActionSettings → ActionDb → ActionOutbox → Job
job_for settings db row = job_of settings db row (email_event_body row.delivery_kind row.envelope)

abbrev pub verdict_for : ActionSettings → Job → Bool × AttemptMeta → Verdict
verdict_for settings j sent = verdict_of settings j.terminal_error sent.0 sent.1

pub deliver-open :
    (settings : ActionSettings) (now : ℕ) (by : Correlation) (send : Job → RequestResult) (id : ℕ)
    (db : ActionDb) (row : ActionOutbox) (sent : Bool × AttemptMeta)
    → find (has_id id) db.outbox ≡ some row
    → is_final row.status ≡ false
    → requested send (job_for settings db row) ≡ ok sent
    → let v = verdict_for settings (job_for settings db row) sent in
      deliver_outbox_row settings now by send id db ≡ (
        ok (some (apply_verdict settings now v row)),
        apply_delivery_result settings now v by row db,
      )
unfolding deliver_outbox_row begin_delivery complete_delivery
deliver-open settings now by send id db row sent found open_row returned =
    let body = email_event_body row.delivery_kind row.envelope in
    rw
      (
        found,
        open_row,
        returned,
        (job_of-row settings db row body).0,
        (job_of-row settings db row body).1,
        find-own id db.outbox row found,
        ==_refl row.attempt_count,
      )
      refl

-- An exception of the request leaves the tables as they are.
pub deliver-raised :
    (settings : ActionSettings) (now : ℕ) (by : Correlation) (send : Job → RequestResult) (id : ℕ)
    (db : ActionDb) (row : ActionOutbox) (e : Text)
    → find (has_id id) db.outbox ≡ some row
    → is_final row.status ≡ false
    → requested send (job_for settings db row) ≡ raised e
    → deliver_outbox_row settings now by send id db ≡ (raised (request_raised e), db)
unfolding deliver_outbox_row begin_delivery
deliver-raised settings now by send id db row e found open_row failed =
    rw (found, open_row, failed) refl

-- A request ends with a result or with an exception.
pub RequestResult-cases :
    (s : RequestResult)
    → ((sent : Bool × AttemptMeta) × (s ≡ ok sent)) ⊎ ((e : Text) × (s ≡ raised e))
RequestResult-cases (ok sent) = inl (sent, refl)
RequestResult-cases (raised e) = inr (e, refl)

pub deliver-final :
    (settings : ActionSettings) (now : ℕ) (by : Correlation) (send : Job → RequestResult) (id : ℕ)
    (db : ActionDb) (row : ActionOutbox)
    → find (has_id id) db.outbox ≡ some row
    → is_final row.status ≡ true
    → deliver_outbox_row settings now by send id db ≡ (ok (some row), db)
unfolding deliver_outbox_row begin_delivery
deliver-final settings now by send id db row found final = rw (found, final) refl

-- One for a request that ends with a result.
abbrev pub is_result : RequestResult → ℕ
is_result (ok sent) = 1
is_result (raised e) = 0

unless_terminal-raised :
    (terminal_error : Option Text) (s : RequestResult) (e : Text)
    → unless_terminal terminal_error s ≡ raised e
    → is_result s ≡ 0
unless_terminal-raised none (ok sent) e h = cc
unless_terminal-raised none (raised x) e h = refl
unless_terminal-raised (some terminal_error) s e h = cc

is_result-le : (s : RequestResult) → is_result s ≤ 1
is_result-le (ok sent) = omega arith
is_result-le (raised e) = omega arith

pub requested-raised :
    (send : Job → RequestResult) (j : Job) (e : Text)
    → requested send j ≡ raised e
    → send j ≡ raised e
requested-raised send j e h = by_case j.terminal_error h
  where
    by_case : (o : Option Text) → unless_terminal o (send j) ≡ raised e → send j ≡ raised e
    by_case none k = k
    by_case (some terminal_error) k = cc

-- What an attempt makes of a row: it ends the delivery, or it leaves a failed row with one more
-- attempt, below the limit.
apply_verdict-cases :
    (settings : ActionSettings) (now : ℕ) (v : Verdict) (row : ActionOutbox)
    → let after = apply_verdict settings now v row in
      (is_final after.status ≡ true)
      ⊎ ((after.attempt_count ≡ row.attempt_count + 1)
          × (after.attempt_count < settings.outbox_max_attempts))
unfolding apply_verdict
apply_verdict-cases settings now v row = ground arith

pub find-applied :
    (settings : ActionSettings) (now : ℕ) (v : Verdict) (by : Correlation) (id : ℕ) (db : ActionDb)
    (row : ActionOutbox)
    → find (has_id id) db.outbox ≡ some row
    → find (has_id id) (apply_delivery_result settings now v by row db).outbox
      ≡ some (apply_verdict settings now v row)
unfolding apply_delivery_result
find-applied settings now v by id db row found =
    rw
      (
        find-rewrite id row.id (apply_verdict settings now v) db.outbox
            (λ r. (apply_verdict-count settings now v r).1),
        found,
        has_id_refl row,
      )
      refl

-- One attempt on a row, by any worker, and what its request ends with, where it makes one.
pub record Try : Type 0 where
  pub now : ℕ
  pub by : Correlation
  pub sent : RequestResult

abbrev pub try_once : ActionSettings → ℕ → Try → ActionDb → ActionDb
try_once settings id t db = (deliver_outbox_row settings t.now t.by (λ _. t.sent) id db).1

abbrev pub deliver_each : ActionSettings → ℕ → List Try → ActionDb → ActionDb
deliver_each settings id [] db = db
deliver_each settings id (t ∷ tries) db = deliver_each settings id tries (try_once settings id t db)

-- How many of the requests end with a result.
abbrev pub results : List Try → ℕ
results [] = 0
results (t ∷ tries) = is_result t.sent + results tries

-- The row that is found by a key is delivered or dead.
abbrev pub Ended : ℕ → ActionDb → Type 0
Ended id db =
    (row : ActionOutbox) × (find (has_id id) db.outbox ≡ some row) × (is_final row.status ≡ true)

deliver_each-Ended :
    (settings : ActionSettings) (id : ℕ) (tries : List Try) (db : ActionDb)
    → Ended id db
    → Ended id (deliver_each settings id tries db)
deliver_each-Ended settings id [] db ended = ended
deliver_each-Ended settings id (t ∷ tries) db (row, found, final) =
    deliver_each-Ended settings id tries (try_once settings id t db) (
      rw (try_once, deliver-final settings t.now t.by (λ _. t.sent) id db row found final)
        (row, found, final))

-- What a try makes of a row that is not final: it ends it, it leaves it with one more attempt below
-- the limit, or its request has raised and nothing has changed.
try-cases :
    (settings : ActionSettings) (id : ℕ) (t : Try) (db : ActionDb) (row : ActionOutbox)
    → find (has_id id) db.outbox ≡ some row
    → is_final row.status ≡ false
    → Ended id (try_once settings id t db)
      ⊎ (((after : ActionOutbox) × (find (has_id id) (try_once settings id t db).outbox
              ≡ some after)
            × (is_final after.status ≡ false)
            × (after.attempt_count ≡ row.attempt_count + 1)
            × (after.attempt_count < settings.outbox_max_attempts))
          ⊎ ((is_result t.sent ≡ 0) × (try_once settings id t db ≡ db)))
try-cases settings id t db row found open_row =
    elim (RequestResult-cases (requested (λ _. t.sent) (job_for settings db row))) [
      | inl (sent, returned) ↦
          let v = verdict_for settings (job_for settings db row) sent in
          let after = apply_verdict settings t.now v row in
          let found' = find-applied settings t.now v t.by id db row found in
          rw
            (
              try_once,
              deliver-open settings t.now t.by (λ _. t.sent) id db row sent found open_row returned,
            )
            (elim (Bool-cases (is_final after.status)) [
              | inl final ↦ inl (after, found', final)
              | inr open_after ↦ elim (apply_verdict-cases settings t.now v row) [
                | inl final ↦ inl (after, found', final)
                | inr (count, below) ↦ inr (inl (after, found', open_after, count, below))
              ]
            ])
      | inr (e, failed) ↦
          rw
            (
              try_once,
              deliver-raised settings t.now t.by (λ _. t.sent) id db row e found open_row failed,
            )
            (inr (
              inr (
                unless_terminal-raised (job_for settings db row).terminal_error t.sent e failed,
                refl,
              )))
    ]

-- A row that is not final ends when the requests of at least one try, and of as many as are left to
-- the limit, end with a result, whatever the results are: it is delivered or dead then. A request that
-- raises an exception does not count.
pub enough_attempts_end :
    (settings : ActionSettings) (id : ℕ) (tries : List Try) (db : ActionDb) (row : ActionOutbox)
    → find (has_id id) db.outbox ≡ some row
    → is_final row.status ≡ false
    → 1 ≤ results tries
    → settings.outbox_max_attempts ≤ row.attempt_count + results tries
    → Ended id (deliver_each settings id tries db)
enough_attempts_end settings id [] db row found open_row some_result enough =
    absurd (omega (arith, some_result))
enough_attempts_end settings id (t ∷ tries) db row found open_row some_result enough =
    elim (try-cases settings id t db row found open_row) [
      | inl ended ↦ deliver_each-Ended settings id tries (try_once settings id t db) ended
      | inr (inl (after, found', open_after, count, below)) ↦
          let one : is_result t.sent ≤ 1 = is_result-le t.sent in
          enough_attempts_end settings id tries (try_once settings id t db) after found' open_after
            (omega (arith, one, count, below, enough)) (omega (arith, one, count, enough))
      | inr (inr (no_result, same)) ↦
          subst (λ d. Ended id (deliver_each settings id tries d)) (sym same)
            (enough_attempts_end settings id tries db row found open_row
              (omega (arith, no_result, some_result)) (omega (arith, no_result, enough)))
    ]

-- A rule that is there is disabled or of another kind.
abbrev pub Unusable : List ActionRule → Option ℕ → Type 0
Unusable rules key =
    (rule : ActionRule)
    → rule_of rules key ≡ some rule
    → (rule.enabled ≡ false) ⊎ (is_webhook_kind rule.action_kind ≡ false)

usable_rule-Unusable :
    (o : Option ActionRule)
    → ((rule : ActionRule)
        → o ≡ some rule
        → (rule.enabled ≡ false) ⊎ (is_webhook_kind rule.action_kind ≡ false))
    → (error : Text) × ((usable_rule o).1 ≡ some error)
usable_rule-Unusable none bad = (codes "Action rule deleted.", refl)
usable_rule-Unusable (some rule) bad = elim (bad rule refl) [
  | inl disabled ↦ (codes "Action rule disabled.", rw disabled refl)
  | inr other ↦ elim (Bool-cases rule.enabled) [
    | inl enabled ↦ (codes "Unsupported action kind (webhook only).", rw (enabled, other) refl)
    | inr disabled ↦ (codes "Action rule disabled.", rw disabled refl)
  ]
]

-- The row after an attempt: dead, with one more attempt, and not to be tried again.
abbrev pub Dies : ActionOutbox → Outcome DeliveryError (Option ActionOutbox) → Type 0
Dies row result =
    (after : ActionOutbox) × (result ≡ ok (some after))
    × (after.status ≡ Status.dead)
    × (after.attempt_count ≡ row.attempt_count + 1)
    × (after.next_attempt_at ≡ none)

-- An attempt on a webhook row that is not final and whose rule is deleted, disabled or of another
-- kind does not raise and leaves the row dead with one more attempt, and without a time for another,
-- whatever a request would have ended with.
pub deliver_outbox_row-Dies :
    (settings : ActionSettings) (now : ℕ) (by : Correlation) (send : Job → RequestResult) (id : ℕ)
    (db : ActionDb) (row : ActionOutbox)
    → find (has_id id) db.outbox ≡ some row
    → is_final row.status ≡ false
    → email_event_body row.delivery_kind row.envelope ≡ none
    → Unusable db.rules row.action_rule_id
    → Dies row (deliver_outbox_row settings now by send id db).0
unfolding verdict_of apply_verdict
deliver_outbox_row-Dies settings now by send id db row found open_row no_body unusable =
    let (error, terminal) = usable_rule-Unusable (rule_of db.rules row.action_rule_id) unusable in
    let delivered =
      deliver-open settings now by send id db row (false, no_meta) found open_row
        (rw (no_body, terminal) refl) in
    rw (delivered, no_body, terminal) (_, refl, refl, refl, refl)
