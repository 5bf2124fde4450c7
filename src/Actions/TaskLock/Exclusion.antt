-- ===== src/Actions/TaskLock/Exclusion.antt =====
-- config/task_lock.py: at most one run holds the lock before its time is over.
use storage_service.Prelude.{
  ℕ, ◌≤◌, ◌≡◌, refl, ap, sym, ◌∙◌, subst, true, false, List, [], ◌∷◌, ◌++◌, Option, none, some,
  arith, ltb, ◌==◌, All, All-map, Bool-cases, inl, inr,
}
use storage_service.Actions.TaskLock.{
  Entry, alive, new_entry, set_nx, acquire, release, LockSystem, LockStep, LockSteps, rest,
  and_step,
}

-- A run whose time is not over is the one in the key.
abbrev pub HoldsKey : ℕ → Option Entry → Entry → Type 0
HoldsKey now store run = ltb now run.expires ≡ true → alive now store ≡ some run

abbrev pub Exclusive : LockSystem → Type 0
Exclusive s = All (HoldsKey s.clock s.store) s.running

pub alive-own :
    (now : ℕ) (run : Entry) → ltb now run.expires ≡ true → alive now (some run) ≡ some run
alive-own now run live = rw live refl

pub alive_idem : (now : ℕ) (store : Option Entry) → alive now (alive now store) ≡ alive now store
alive_idem now none = refl
alive_idem now (some entry) = elim (Bool-cases (ltb now entry.expires)) [
  | inl live ↦ rw live (alive-own now entry live)
  | inr over ↦ rw over refl
]

alive-some :
    (now : ℕ) (store : Option Entry) (run : Entry) → alive now store ≡ some run → store ≡ some run
alive-some now none run h = cc
alive-some now (some entry) run h = elim (Bool-cases (ltb now entry.expires)) [
  | inl live ↦ (rw live at h)
  | inr over ↦ let gone : none ≡ some run = rw over at h in cc
]

tick-HoldsKey :
    (now later : ℕ) (store : Option Entry) (run : Entry)
    → now ≤ later
    → HoldsKey now store run
    → HoldsKey later store run
tick-HoldsKey now later store run le h live =
    let before : ltb now run.expires ≡ true = ground (arith, live, le) in
    rw (alive-some now store run (h before)) (alive-own later run live)

-- Where the lock is taken, no key was there.
set_nx-none :
    (entry : Entry) (o : Option Entry)
    → (set_nx entry o).0 ≡ true
    → (o ≡ none) × ((set_nx entry o).1 ≡ some entry)
set_nx-none entry none h = (refl, refl)
set_nx-none entry (some held) h = cc

set_nx-held :
    (entry : Entry) (o : Option Entry) → (set_nx entry o).0 ≡ false → (set_nx entry o).1 ≡ o
set_nx-held entry none h = cc
set_nx-held entry (some held) h = refl

take-HoldsKey :
    (now : ℕ) (store store' : Option Entry) (run : Entry)
    → alive now store ≡ none
    → HoldsKey now store run
    → HoldsKey now store' run
take-HoldsKey now store store' run free h live =
    let held : none ≡ some run = sym free ∙ h live in cc

skip-HoldsKey :
    (now : ℕ) (store store' : Option Entry) (run : Entry)
    → store' ≡ alive now store
    → HoldsKey now store run
    → HoldsKey now store' run
skip-HoldsKey now store store' run same h live = ap (alive now) same ∙ alive_idem now store ∙ h live

release-HoldsKey :
    (now : ℕ) (store : Option Entry) (token : ℕ) (run : Entry)
    → (run.token == token) ≡ false
    → HoldsKey now store run
    → HoldsKey now (release now token store) run
unfolding release
release-HoldsKey now store token run other h live = rw (h live, other) (alive-own now run live)

All-both {ℓ κ} :
    {A : Type ℓ} (P Q R : A → Type κ) (f : (a : A) → P a → Q a → R a) (xs : List A)
    → All P xs
    → All Q xs
    → All R xs
All-both P Q R f [] h k = tt
All-both P Q R f (x ∷ xs) h k = (f x h.0 k.0, All-both P Q R f xs h.1 k.1)

All-without {ℓ κ} :
    {A : Type ℓ} (P : A → Type κ) (before after : List A) (a : A)
    → All P (before ++ a ∷ after)
    → All P (before ++ after)
All-without P [] after a h = h.1
All-without P (b ∷ before) after a h = (h.0, All-without P before after a h.1)

Step-Exclusive : (s t : LockSystem) → LockStep s t → Exclusive s → Exclusive t
unfolding acquire
Step-Exclusive s t (LockStep.tick now later store running le) h =
    All-map (HoldsKey now store) (HoldsKey later store)
      (λ run. tick-HoldsKey now later store run le) running h
Step-Exclusive s t (LockStep.take_lock now token ttl store running got) h =
    let (free, taken) = set_nx-none (new_entry now token ttl) (alive now store) got in
    (
      λ live. ap (alive now) taken ∙ alive-own now (new_entry now token ttl) live,
      All-map (HoldsKey now store) (HoldsKey now (acquire now token ttl store).1)
          (λ run. take-HoldsKey now store (acquire now token ttl store).1 run free) running h,
    )
Step-Exclusive s t (LockStep.skip_run now token ttl store running missed) h =
    All-map (HoldsKey now store) (HoldsKey now (acquire now token ttl store).1)
      (λ run.
        skip-HoldsKey now store (acquire now token ttl store).1 run
          (set_nx-held (new_entry now token ttl) (alive now store) missed))
      running h
Step-Exclusive s t (LockStep.give_back now store before after run others) h =
    All-both (HoldsKey now store) (λ other. (other.token == run.token) ≡ false)
      (HoldsKey now (release now run.token store))
      (λ other holds ne. release-HoldsKey now store run.token other ne holds) (before ++ after)
      (All-without (HoldsKey now store) before after run h) others
Step-Exclusive s t (LockStep.crash_run now store before after run) h =
    All-without (HoldsKey now store) before after run h

Steps-Exclusive : (s t : LockSystem) → LockSteps s t → Exclusive s → Exclusive t
Steps-Exclusive s t (rest s') h = h
Steps-Exclusive s t (and_step s' u t' run last) h =
    Step-Exclusive u t' last (Steps-Exclusive s' u run h)

All-first {ℓ κ} :
    {A : Type ℓ} (P : A → Type κ) (before after : List A) (a : A)
    → All P (before ++ a ∷ after)
    → P a
All-first P [] after a h = h.0
All-first P (b ∷ before) after a h = All-first P before after a h.1

set_nx-refused : (entry run : Entry) (o : Option Entry) → o ≡ some run → (set_nx entry o).0 ≡ false
set_nx-refused entry run o e = rw e refl

-- After any steps of the clock and of runs that take the lock or miss it, give it back or crash,
-- where no run had the lock at first: while the time of a run that has taken the lock and not given it
-- back is not over, the key is there with its token, and no other run takes the lock.
pub running-acquire :
    (clock : ℕ) (store : Option Entry) (t : LockSystem)
    → LockSteps (record { clock = clock; store = store; running = [] }) t
    → (before after : List Entry) (run : Entry) → t.running ≡ before ++ run ∷ after
    → ltb t.clock run.expires ≡ true
    → (token ttl : ℕ)
    → (alive t.clock t.store ≡ some run) × ((acquire t.clock token ttl t.store).0 ≡ false)
unfolding acquire
running-acquire clock store t steps before after run this live token ttl =
    let holds =
      subst (All (HoldsKey t.clock t.store)) this
        (Steps-Exclusive (record { clock = clock; store = store; running = [] }) t steps tt) in
    let key = All-first (HoldsKey t.clock t.store) before after run holds live in
    (key, set_nx-refused (new_entry t.clock token ttl) run (alive t.clock t.store) key)
