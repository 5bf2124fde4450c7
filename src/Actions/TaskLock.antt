-- ===== src/Actions/TaskLock.antt =====
-- config/task_lock.py, `task_lock`: the lock of a scheduled task in Redis. A time is a number of
-- seconds; a key is there while the clock is before its end. The key of one task is modelled; the
-- tokens are random, and each run has its own.
pub mod Exclusion
pub mod Refines
use storage_service.Prelude.{
  ℕ, ◌+◌, ◌≤◌, ◌<◌, ◌≡◌, refl, ap, sym, ◌∙◌, subst, Bool, true, false, ◌&&◌, not, List, [], ◌∷◌,
  ◌++◌, Option, none, some, arith, ltb, ◌==◌, if◌then◌else◌, max, All, All-map, All-append,
  Bool-cases, inl, inr, ◌⊎◌,
}

-- The value of the key, and the end of its life.
pub record Entry : Type 0 where
  pub token : ℕ
  pub expires : ℕ

abbrev pub alive : ℕ → Option Entry → Option Entry
alive now none = none
alive now (some entry) = if ltb now entry.expires then some entry else none

abbrev pub new_entry : ℕ → ℕ → ℕ → Entry
new_entry now token ttl = record { token = token; expires = now + max 1 ttl }

-- `client.set(key, token, nx=True, ex=max(1, int(ttl)))`.
abbrev pub set_nx : Entry → Option Entry → Bool × Option Entry
set_nx entry none = (true, some entry)
set_nx entry (some held) = (false, some held)

unfoldable pub acquire : ℕ → ℕ → ℕ → Option Entry → Bool × Option Entry
acquire now token ttl store = set_nx (new_entry now token ttl) (alive now store)

-- `_RELEASE_SCRIPT`.
abbrev pub delete_own : ℕ → Option Entry → Option Entry
delete_own token none = none
delete_own token (some entry) = if entry.token == token then none else some entry

unfoldable pub release : ℕ → ℕ → Option Entry → Option Entry
release now token store = delete_own token (alive now store)

-- The clock, the key, and the runs that have taken the lock and have not given it back.
pub record LockSystem : Type 0 where
  pub clock : ℕ
  pub store : Option Entry
  pub running : List Entry

pub data LockStep : LockSystem → LockSystem → Type 0 where
  tick :
      (now later : ℕ) (store : Option Entry) (running : List Entry)
      → now ≤ later
      → LockStep
          (record { clock = now; store = store; running = running })
          (record { clock = later; store = store; running = running })
  take_lock :
      (now token ttl : ℕ) (store : Option Entry) (running : List Entry)
      → (acquire now token ttl store).0 ≡ true
      → LockStep
          (record { clock = now; store = store; running = running })
          (record {
            clock = now;
            store = (acquire now token ttl store).1;
            running = new_entry now token ttl ∷ running;
          })
  skip_run :
      (now token ttl : ℕ) (store : Option Entry) (running : List Entry)
      → (acquire now token ttl store).0 ≡ false
      → LockStep
          (record { clock = now; store = store; running = running })
          (record { clock = now; store = (acquire now token ttl store).1; running = running })
  give_back :
      (now : ℕ) (store : Option Entry) (before after : List Entry) (run : Entry)
      → All (λ other. (other.token == run.token) ≡ false) (before ++ after)
      → LockStep
          (record { clock = now; store = store; running = before ++ run ∷ after })
          (record { clock = now; store = release now run.token store; running = before ++ after })
  crash_run :
      (now : ℕ) (store : Option Entry) (before after : List Entry) (run : Entry)
      → LockStep
          (record { clock = now; store = store; running = before ++ run ∷ after })
          (record { clock = now; store = store; running = before ++ after })

pub data LockSteps : LockSystem → LockSystem → Type 0 where
  rest : (s : LockSystem) → LockSteps s s
  and_step : (s t u : LockSystem) → LockSteps s t → LockStep t u → LockSteps s u
