-- ===== src/Actions/Outbox/Rows.antt =====
-- What the operations of the outbox make of one row: its key and its number of attempts, and the
-- two predicates that hold between the rows, the recorded attempts and the deliveries in flight.
use storage_service.Prelude.{
  ℕ, zero, suc, ◌+◌, ◌≤◌, ◌<◌, ◌≡◌, refl, sym, ap, ◌∙◌, subst, ◌⊎◌, inl, inr, true, false, List, [],
  ◌∷◌, ◌++◌, Option, none, some, arith, ◌==◌, if◌then◌else◌, find, find-update, find_sound,
  update_where, map_option, keep, keep-append, map, range_from, Bool-cases, ==_iff, append-nil,
}
use storage_service.Json.{Fields}
use storage_service.Actions.Models.{ActionOutbox, DeliveryAttempt, ActionSettings, ActionDb}
use storage_service.Actions.Outbox.{
  has_id, is_final, Job, job_of, Verdict, apply_verdict, attempt_row, apply_delivery_result,
  Correlation,
}
use storage_service.Actions.Outbox.Claim.{lease, requeued}

-- A rewrite of a row that keeps its key, never lowers its number of attempts, and raises it where
-- it ends the delivery.
abbrev pub Grows : (ActionOutbox → ActionOutbox) → Type 0
Grows f =
    (row : ActionOutbox)
    → ((f row).id ≡ row.id)
      × (row.attempt_count ≤ (f row).attempt_count)
      × (is_final (f row).status ≡ true
          → (is_final row.status ≡ true) ⊎ (row.attempt_count < (f row).attempt_count))

pub lease-Grows : (until : ℕ) → Grows (lease until)
lease-Grows until row = (refl, omega arith, λ h. inl h)

pub requeued-Grows : Grows requeued
requeued-Grows row = (refl, omega arith, λ h. cc)

pub apply_verdict-count :
    (settings : ActionSettings) (now : ℕ) (v : Verdict) (row : ActionOutbox)
    → ((apply_verdict settings now v row).attempt_count ≡ row.attempt_count + 1)
      × ((apply_verdict settings now v row).id ≡ row.id)
unfolding apply_verdict
apply_verdict-count settings now v row = ground arith

pub apply_verdict-Grows :
    (settings : ActionSettings) (now : ℕ) (v : Verdict) → Grows (apply_verdict settings now v)
apply_verdict-Grows settings now v row =
    let (count, id) = apply_verdict-count settings now v row in
    (id, omega (arith, count), λ _. inr (omega (arith, count)))

pub has_id_refl : (row : ActionOutbox) → has_id row.id row ≡ true
has_id_refl row = ground arith

pub find-rewrite :
    (id key : ℕ) (f : ActionOutbox → ActionOutbox) (rows : List ActionOutbox)
    → ((row : ActionOutbox) → (f row).id ≡ row.id)
    → find (has_id id) (update_where (has_id key) f rows)
      ≡ map_option (λ row. if has_id key row then f row else row) (find (has_id id) rows)
find-rewrite id key f rows same =
    find-update (has_id id) (has_id key) f rows (λ row. ap (λ i. i == id) (same row))

-- A delivery in flight has read its row with at most the attempts that the row has now, and with
-- fewer if the row is final now.
abbrev pub BehindRow : ℕ → Option ActionOutbox → Type 0
BehindRow snapshot none = ⊥
BehindRow snapshot (some row) =
    (snapshot ≤ row.attempt_count) × (is_final row.status ≡ true → snapshot < row.attempt_count)

abbrev pub Behind : List ActionOutbox → Job → Type 0
Behind rows j = BehindRow j.snapshot_attempt (find (has_id j.outbox_id) rows)

BehindRow-map :
    (snapshot key : ℕ) (f : ActionOutbox → ActionOutbox) (o : Option ActionOutbox)
    → Grows f
    → BehindRow snapshot o
    → BehindRow snapshot (map_option (λ row. if has_id key row then f row else row) o)
BehindRow-map snapshot key f none g h = h
BehindRow-map snapshot key f (some row) g (le, lt) = by_key (Bool-cases (has_id key row))
  where
    by_key :
        (has_id key row ≡ true) ⊎ (has_id key row ≡ false)
        → BehindRow snapshot (some (if has_id key row then f row else row))
    by_key (inr e) = rw e (le, lt)
    by_key (inl e) = rw e (
      omega (arith, (g row).1),
      λ final. elim ((g row).2 final) [
        | inl before ↦ omega (arith, lt before, (g row).1)
        | inr more ↦ omega (arith, more)
      ],
    )

pub Behind-rewrite :
    (key : ℕ) (f : ActionOutbox → ActionOutbox) (rows : List ActionOutbox) (j : Job)
    → Grows f
    → Behind rows j
    → Behind (update_where (has_id key) f rows) j
Behind-rewrite key f rows j g h =
    rw (find-rewrite j.outbox_id key f rows (λ row. (g row).0))
      (BehindRow-map j.snapshot_attempt key f (find (has_id j.outbox_id) rows) g h)

pub job_of-row :
    (settings : ActionSettings) (db : ActionDb) (row : ActionOutbox) (body : Option Fields)
    → ((job_of settings db row body).outbox_id ≡ row.id)
      × ((job_of settings db row body).snapshot_attempt ≡ row.attempt_count)
job_of-row settings db row none = (refl, refl)
job_of-row settings db row (some body) = (refl, refl)

-- The row that a key finds is found by its own key.
pub find-own :
    (id : ℕ) (rows : List ActionOutbox) (row : ActionOutbox)
    → find (has_id id) rows ≡ some row
    → find (has_id row.id) rows ≡ some row
find-own id rows row e =
    subst (λ i. find (has_id i) rows ≡ some row)
      (sym ((==_iff row.id id).0 (find_sound (has_id id) rows row e))) e

-- The attempts that are recorded for a row.
abbrev pub attempts_of : ℕ → List DeliveryAttempt → List DeliveryAttempt
attempts_of id attempts = keep (λ a. a.outbox_id == id) attempts

abbrev pub count_of : Option ActionOutbox → ℕ
count_of none = 0
count_of (some row) = row.attempt_count

-- The attempts recorded for a row are numbered from 1 to its number of attempts, each number once.
abbrev pub Recorded : ActionDb → Type 0
Recorded db =
    (id : ℕ)
    → map (λ a. a.attempt_number) (attempts_of id db.attempts)
      ≡ range_from 1 (count_of (find (has_id id) db.outbox))

count_of-map :
    (key : ℕ) (f : ActionOutbox → ActionOutbox) (o : Option ActionOutbox)
    → ((row : ActionOutbox) → (f row).attempt_count ≡ row.attempt_count)
    → count_of (map_option (λ row. if has_id key row then f row else row) o) ≡ count_of o
count_of-map key f none h = refl
count_of-map key f (some row) h = ground (arith, h row)

-- A rewrite that keeps the keys and the numbers of attempts.
pub Recorded-rewrite :
    (key : ℕ) (f : ActionOutbox → ActionOutbox) (db : ActionDb)
    → ((row : ActionOutbox) → ((f row).id ≡ row.id) × ((f row).attempt_count ≡ row.attempt_count))
    → Recorded db
    → Recorded (record db { outbox = update_where (has_id key) f db.outbox })
Recorded-rewrite key f db h r id =
    rw
      (
        find-rewrite id key f db.outbox (λ row. (h row).0),
        count_of-map key f (find (has_id id) db.outbox) (λ row. (h row).1),
      )
      (r id)

map-append {ℓ} :
    {A B : Type ℓ} (f : A → B) (xs ys : List A) → map f (xs ++ ys) ≡ map f xs ++ map f ys
map-append f [] ys = refl
map-append f (x ∷ xs) ys = rw (map-append f xs ys)

range_from-suc :
    (start count : ℕ)
    → range_from start count ++ (start + count) ∷ [] ≡ range_from start (suc count)
range_from-suc start zero = ap (λ n. n ∷ []) (omega arith)
range_from-suc start (suc count) =
    ap (λ r. start ∷ r)
      (ap (λ n. range_from (suc start) count ++ n ∷ []) (omega arith)
        ∙ range_from-suc (suc start) count)

next_number : (count : ℕ) → range_from 1 count ++ (count + 1) ∷ [] ≡ range_from 1 (count + 1)
next_number count =
    let position : count + 1 ≡ 1 + count = omega arith in
    let amount : suc count ≡ count + 1 = omega arith in
    ap (λ n. range_from 1 count ++ n ∷ []) position
    ∙ range_from-suc 1 count
    ∙ ap (range_from 1) amount

attempts_of-append :
    (id : ℕ) (attempts : List DeliveryAttempt) (a : DeliveryAttempt)
    → map (λ a. a.attempt_number) (attempts_of id (attempts ++ a ∷ []))
      ≡ map (λ a. a.attempt_number) (attempts_of id attempts)
        ++ (if a.outbox_id == id then a.attempt_number ∷ [] else [])
attempts_of-append id attempts a =
    rw
      (
        keep-append (λ a. a.outbox_id == id) attempts (a ∷ []),
        map-append (λ a. a.attempt_number) (attempts_of id attempts) (attempts_of id (a ∷ [])),
      )
      (ground arith)

-- A row that another key finds is not the row of this key.
count_of-other :
    (id key : ℕ) (f : ActionOutbox → ActionOutbox) (rows : List ActionOutbox)
    → (key == id) ≡ false
    → count_of (map_option (λ row. if has_id key row then f row else row) (find (has_id id) rows))
      ≡ count_of (find (has_id id) rows)
count_of-other id key f rows ne = by_case (find (has_id id) rows) refl
  where
    by_case :
        (o : Option ActionOutbox)
        → find (has_id id) rows ≡ o
        → count_of (map_option (λ row. if has_id key row then f row else row) o) ≡ count_of o
    by_case none e = refl
    by_case (some row) e = ground (arith, find_sound (has_id id) rows row e)

count_of-apply :
    (settings : ActionSettings) (now : ℕ) (v : Verdict) (row : ActionOutbox)
    (rows : List ActionOutbox) (id : ℕ)
    → find (has_id row.id) rows ≡ some row
    → range_from 1 (count_of (find (has_id id) rows))
        ++ (if row.id == id then (row.attempt_count + 1) ∷ [] else [])
      ≡ range_from 1 (
          count_of (
            map_option
              (λ r. if has_id row.id r then apply_verdict settings now v r else r)
              (find (has_id id) rows)))
count_of-apply settings now v row rows id found = by_key (Bool-cases (row.id == id))
  where
    by_key :
        ((row.id == id) ≡ true) ⊎ ((row.id == id) ≡ false)
        → range_from 1 (count_of (find (has_id id) rows))
            ++ (if row.id == id then (row.attempt_count + 1) ∷ [] else [])
          ≡ range_from 1 (
              count_of (
                map_option
                  (λ r. if has_id row.id r then apply_verdict settings now v r else r)
                  (find (has_id id) rows)))
    by_key (inr ne) =
        rw (ne, count_of-other id row.id (apply_verdict settings now v) rows ne) (append-nil _)
    by_key (inl e) =
        let same : find (has_id id) rows ≡ some row =
          subst (λ i. find (has_id i) rows ≡ some row) ((==_iff row.id id).0 e) found in
        rw (e, same, has_id_refl row, (apply_verdict-count settings now v row).0)
          (next_number row.attempt_count)

-- One recorded attempt, with the next number, on the row that is found by its key.
pub Recorded-apply :
    (settings : ActionSettings) (now : ℕ) (v : Verdict) (by : Correlation) (row : ActionOutbox)
    (db : ActionDb)
    → find (has_id row.id) db.outbox ≡ some row
    → Recorded db
    → Recorded (apply_delivery_result settings now v by row db)
unfolding apply_delivery_result
Recorded-apply settings now v by row db found r id =
    rw
      (
        attempts_of-append id db.attempts (attempt_row v by.0 by.1 row),
        r id,
        find-rewrite id row.id (apply_verdict settings now v) db.outbox
            (λ r. (apply_verdict-count settings now v r).1),
      )
      (count_of-apply settings now v row db.outbox id found)
