-- ===== src/Actions/TaskLock/Refines.antt =====
-- config/task_lock.py: the key in Redis, which stays in the store when its life is over, against a
-- lease, which has a holder or none.
use storage_service.Prelude.{
  ℕ, ◌≤◌, ◌≡◌, refl, sym, subst, true, false, List, ◌∷◌, ◌++◌, Option, none, some, arith, ltb, ◌==◌,
  Bool-cases, inl, inr,
}
use storage_service.Actions.TaskLock.{
  Entry, alive, new_entry, set_nx, acquire, delete_own, release, LockSystem, LockStep, LockSteps,
  rest, and_step,
}
use storage_service.Actions.TaskLock.Exclusion.{alive-own, alive_idem}

-- The clock, who holds the lease and until when, and the runs that were granted it.
pub record Lease : Type 0 where
  pub clock : ℕ
  pub holder : Option Entry
  pub granted : List Entry

pub data LeaseStep : Lease → Lease → Type 0 where
  -- Time passes, and the lease of a holder is not over.
  wait :
      (now later : ℕ) (held : Option Entry) (runs : List Entry)
      → now ≤ later
      → alive later held ≡ held
      → LeaseStep
          (record { clock = now; holder = held; granted = runs })
          (record { clock = later; holder = held; granted = runs })
  -- Time passes, and the lease of the holder is over.
  lapse :
      (now later : ℕ) (entry : Entry) (runs : List Entry)
      → now ≤ later
      → entry.expires ≤ later
      → LeaseStep
          (record { clock = now; holder = some entry; granted = runs })
          (record { clock = later; holder = none; granted = runs })
  -- A lease without a holder is granted, for a second at least.
  grant :
      (now token ttl : ℕ) (runs : List Entry)
      → LeaseStep
          (record { clock = now; holder = none; granted = runs })
          (record {
            clock = now;
            holder = some (new_entry now token ttl);
            granted = new_entry now token ttl ∷ runs;
          })
  -- A lease that has a holder is refused.
  refuse :
      (now : ℕ) (entry : Entry) (runs : List Entry)
      → LeaseStep
          (record { clock = now; holder = some entry; granted = runs })
          (record { clock = now; holder = some entry; granted = runs })
  -- The holder gives its lease back.
  hand_back :
      (now : ℕ) (entry run : Entry) (before after : List Entry)
      → (entry.token == run.token) ≡ true
      → LeaseStep
          (record { clock = now; holder = some entry; granted = before ++ run ∷ after })
          (record { clock = now; holder = none; granted = before ++ after })
  -- A run that crashes, or that is not the holder, ends, and the lease stays.
  leave :
      (now : ℕ) (held : Option Entry) (run : Entry) (before after : List Entry)
      → LeaseStep
          (record { clock = now; holder = held; granted = before ++ run ∷ after })
          (record { clock = now; holder = held; granted = before ++ after })

pub data LeaseSteps : Lease → Lease → Type 0 where
  lease_rest : (s : Lease) → LeaseSteps s s
  lease_and : (s t u : Lease) → LeaseSteps s t → LeaseStep t u → LeaseSteps s u

abbrev pub lease_at : ℕ → List Entry → Option Entry → Lease
lease_at now runs held = record { clock = now; holder = held; granted = runs }

-- The lease of a system: a key whose life is over is no holder.
abbrev pub lease_of : LockSystem → Lease
lease_of s = lease_at s.clock s.running (alive s.clock s.store)

tick-lease :
    (now later : ℕ) (runs : List Entry) (store : Option Entry)
    → now ≤ later
    → LeaseStep (lease_at now runs (alive now store)) (lease_at later runs (alive later store))
tick-lease now later runs none le = LeaseStep.wait now later none runs le refl
tick-lease now later runs (some entry) le = elim (Bool-cases (ltb later entry.expires)) [
  | inl live ↦
      let before : ltb now entry.expires ≡ true = ground arith in
      rw (before, live) (LeaseStep.wait now later (some entry) runs le (rw live refl))
  | inr over ↦ rw over (elim (Bool-cases (ltb now entry.expires)) [
    | inl live ↦ rw live (LeaseStep.lapse now later entry runs le (ground arith))
    | inr gone ↦ rw gone (LeaseStep.wait now later none runs le refl)
  ])
]

take-lease :
    (now token ttl : ℕ) (runs : List Entry) (held : Option Entry)
    → (set_nx (new_entry now token ttl) held).0 ≡ true
    → LeaseStep
        (lease_at now runs held)
        (lease_at now (new_entry now token ttl ∷ runs) (set_nx (new_entry now token ttl) held).1)
take-lease now token ttl runs none got = LeaseStep.grant now token ttl runs
take-lease now token ttl runs (some entry) got = cc

miss-lease :
    (now token ttl : ℕ) (runs : List Entry) (held : Option Entry)
    → (set_nx (new_entry now token ttl) held).0 ≡ false
    → LeaseStep
        (lease_at now runs held)
        (lease_at now runs (set_nx (new_entry now token ttl) held).1)
miss-lease now token ttl runs none missed = cc
miss-lease now token ttl runs (some entry) missed = LeaseStep.refuse now entry runs

return-lease :
    (now : ℕ) (run : Entry) (before after : List Entry) (held : Option Entry)
    → LeaseStep
        (lease_at now (before ++ run ∷ after) held)
        (lease_at now (before ++ after) (delete_own run.token held))
return-lease now run before after none = LeaseStep.leave now none run before after
return-lease now run before after (some entry) = elim (Bool-cases (entry.token == run.token)) [
  | inl own ↦ rw own (LeaseStep.hand_back now entry run before after own)
  | inr other ↦ rw other (LeaseStep.leave now (some entry) run before after)
]

alive-set_nx :
    (now token ttl : ℕ) (held : Option Entry)
    → alive now held ≡ held
    → alive now (set_nx (new_entry now token ttl) held).1
      ≡ (set_nx (new_entry now token ttl) held).1
alive-set_nx now token ttl none h = alive-own now (new_entry now token ttl) (ground arith)
alive-set_nx now token ttl (some entry) h = h

alive-delete_own :
    (now token : ℕ) (held : Option Entry)
    → alive now held ≡ held
    → alive now (delete_own token held) ≡ delete_own token held
alive-delete_own now token none h = refl
alive-delete_own now token (some entry) h = elim (Bool-cases (entry.token == token)) [
  | inl own ↦ rw own refl
  | inr other ↦ rw other h
]

Step-lease : (s t : LockSystem) → LockStep s t → LeaseStep (lease_of s) (lease_of t)
unfolding acquire release
Step-lease s t (LockStep.tick now later store running le) = tick-lease now later running store le
Step-lease s t (LockStep.take_lock now token ttl store running got) =
    subst
      (λ held.
        LeaseStep (lease_at now running (alive now store))
          (lease_at now (new_entry now token ttl ∷ running) held))
      (sym (alive-set_nx now token ttl (alive now store) (alive_idem now store)))
      (take-lease now token ttl running (alive now store) got)
Step-lease s t (LockStep.skip_run now token ttl store running missed) =
    subst (λ held. LeaseStep (lease_at now running (alive now store)) (lease_at now running held))
      (sym (alive-set_nx now token ttl (alive now store) (alive_idem now store)))
      (miss-lease now token ttl running (alive now store) missed)
Step-lease s t (LockStep.give_back now store before after run others) =
    subst
      (λ held.
        LeaseStep (lease_at now (before ++ run ∷ after) (alive now store))
          (lease_at now (before ++ after) held))
      (sym (alive-delete_own now run.token (alive now store) (alive_idem now store)))
      (return-lease now run before after (alive now store))
Step-lease s t (LockStep.crash_run now store before after run) =
    LeaseStep.leave now (alive now store) run before after

-- Any steps of the clock and of the runs of a task, by which the key in the store is set, left and
-- deleted, are steps of a lease: it is granted only where it has no holder, refused only where it has
-- one, ends when its time is over or its holder gives it back, and is else left as it is. The holder
-- is the key, while its life is not over.
pub LockSteps-lease : (s t : LockSystem) → LockSteps s t → LeaseSteps (lease_of s) (lease_of t)
LockSteps-lease s t (rest s') = lease_rest (lease_of s')
LockSteps-lease s t (and_step s' u t' steps last) =
    lease_and (lease_of s') (lease_of u) (lease_of t') (LockSteps-lease s' u steps)
      (Step-lease u t' last)
