-- ===== src/Prelude/Outcome.antt =====
-- A call that may raise, and a method that reads and writes a state. What was written before a
-- raise stays written, unless `atomic` (Django's `transaction.atomic`) puts the state back.
use mathlib.Core.Path.{◌≡◌, refl, ap, subst}
use mathlib.Core.Bool.{Bool, true, false}
use native.Mathlib.Omega.{arith}

pub data Outcome (E A : Type 0) : Type 0 where
  ok : A → Outcome E A
  raised : E → Outcome E A

abbrev pub Exec : Type 0 → Type 0 → Type 0 → Type 0
Exec S E A = S → Outcome E A × S

module _ {S E A : Type 0} where
  abbrev pub pure : A → Exec S E A
  pure a s = (ok a, s)

  abbrev pub fail : E → Exec S E A
  fail e s = (raised e, s)

  abbrev pub gets : (S → A) → Exec S E A
  gets f s = (ok (f s), s)

  -- `raise` where the test fails.
  abbrev pub check : Bool → E → A → Exec S E A
  check true e a s = (ok a, s)
  check false e a s = (raised e, s)

  abbrev pub rolled_back : S → Outcome E A × S → Outcome E A × S
  rolled_back before (ok a, after) = (ok a, after)
  rolled_back before (raised e, after) = (raised e, before)

  abbrev pub atomic : Exec S E A → Exec S E A
  atomic m s = rolled_back s (m s)

infixl 5 ◌>>=◌ ◌>>◌
abbrev pub ◌>>=◌ : {S E A B : Type 0} → Exec S E A → (A → Exec S E B) → Exec S E B
◌>>=◌ m f s = let (r, s') = m s in elim r [ ok a ↦ f a s' | raised e ↦ (raised e, s') ]

abbrev pub ◌>>◌ : {S E B : Type 0} → Exec S E (Unit {0}) → Exec S E B → Exec S E B
m >> k = m >>= λ _. k

-- An atomic call that raises has changed nothing.
pub atomic-raised :
    {S E A : Type 0} (m : Exec S E A) (s : S) (e : E)
    → (atomic m s).0 ≡ raised e
    → (atomic m s).1 ≡ s
atomic-raised {S} {E} {A} m s e h = back (m s) h
  where
    back : (r : Outcome E A × S) → (rolled_back s r).0 ≡ raised e → (rolled_back s r).1 ≡ s
    back (ok a, s') h = cc
    back (raised x, s') h = refl

-- A bind that returns is a first call that returns, and the rest on its result.
pub bind-ok :
    {S E A B : Type 0} (m : Exec S E A) (f : A → Exec S E B) (s s' : S) (b : B)
    → ◌>>=◌ m f s ≡ (ok b, s')
    → (a : A) × (t : S) × (m s ≡ (ok a, t)) × (f a t ≡ (ok b, s'))
bind-ok {S} {E} {A} {B} m f s s' b h = split (m s) refl h
  where
    split :
        (r : Outcome E A × S)
        → m s ≡ r
        → (elim r.0 as (λ _. Outcome E B × S) [ ok a ↦ f a r.1 | raised e ↦ (raised e, r.1) ])
          ≡ (ok b, s')
        → (a : A) × (t : S) × (m s ≡ (ok a, t)) × (f a t ≡ (ok b, s'))
    split (ok a, t) e k = (a, t, e, k)
    split (raised x, t) e k = cc

-- A check that returns has passed, and has changed nothing.
pub check-ok :
    {S E A : Type 0} (b : Bool) (e : E) (a : A) (s s' : S) (a' : A)
    → check b e a s ≡ (ok a', s')
    → (b ≡ true) × (a' ≡ a) × (s' ≡ s)
check-ok true e a s s' a' h = ground arith
check-ok false e a s s' a' h = cc

-- From a state where P holds, a call that returns leaves one where Q holds of its result.
abbrev pub Ensures : {S E A : Type 0} → (S → Type 0) → Exec S E A → (A → S → Type 0) → Type 0
Ensures {S} {E} {A} P m Q = (s t : S) (a : A) → P s → m s ≡ (ok a, t) → Q a t

pub Ensures-bind :
    {S E A B : Type 0} (P : S → Type 0) (Q : A → S → Type 0) (R : B → S → Type 0) (m : Exec S E A)
    (f : A → Exec S E B)
    → Ensures P m Q
    → ((a : A) → Ensures (Q a) (f a) R)
    → Ensures P (m >>= f) R
Ensures-bind P Q R m f hm hf s t b p e =
    let (a, u, first, rest) = bind-ok m f s t b e in hf a u t b (hm s u a p first) rest

pub Ensures-check :
    {S E A : Type 0} (P : S → Type 0) (b : Bool) (e : E) (x : A) → Ensures P (check b e x) (λ _. P)
Ensures-check P true e x s t a p h = ground (arith, p, h)
Ensures-check P false e x s t a p h = cc

-- What an atomic call ensures where it returns, and where it raises.
pub atomic-Ensures :
    {S E A : Type 0} (P Q : S → Type 0) (m : Exec S E A)
    → Ensures P m (λ _. Q)
    → ((s : S) → P s → Q s)
    → (s : S) → P s
    → Q (atomic m s).1
atomic-Ensures {S} {E} {A} P Q m h back s p = keeps (m s) refl
  where
    keeps : (r : Outcome E A × S) → m s ≡ r → Q (rolled_back s r).1
    keeps (ok a, t) e = h s t a p e
    keeps (raised x, t) e = back s p

pub Ensures-pure : {S E A : Type 0} (P : S → Type 0) (x : A) → Ensures {E = E} P (pure x) (λ _. P)
Ensures-pure P x s t a p h = subst P (ap (λ r. r.1) h) p

pub Ensures-fail :
    {S E A : Type 0} (P : S → Type 0) (Q : A → S → Type 0) (e : E) → Ensures P (fail e) Q
Ensures-fail P Q e s t a p h = cc

pub Ensures-gets :
    {S E A : Type 0} (P : S → Type 0) (Q : A → S → Type 0) (f : S → A)
    → ((s : S) → P s → Q (f s) s)
    → Ensures {E = E} P (gets f) Q
Ensures-gets {S} {E} {A} P Q f q s t a p h = subst holds h (q s p)
  where
    holds : Outcome E A × S → Type 0
    holds (ok b, u) = Q b u
    holds (raised x, u) = Unit
