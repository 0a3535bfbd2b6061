-- ===== src/Chain/Results.antt =====
-- What it takes for the steps of a handler to return.
use terra_ledger.Base.{◌≡◌, refl, Bool, true, false, Option, none, some}
use terra_ledger.Chain.{Attempt, returns, fails, ◌>>=◌, must, account, absent, Failure}

pub bind-eq-returns :
    {A B : Type 0} (m : Attempt A) (f : A → Attempt B) {b : B}
    → (m >>= f) ≡ returns b
    → (a : A) × (m ≡ returns a) × (f a ≡ returns b)
bind-eq-returns (returns a) f h = (a, refl, h)
bind-eq-returns (fails e) f h = cc

-- A guard that was passed, and what comes after it.
pub must-next :
    {B : Type 0} (t : Bool) (e : Failure) (f : Unit → Attempt B) {b : B}
    → (must t e >>= f) ≡ returns b
    → (t ≡ true) × (f tt ≡ returns b)
must-next true e f h = (refl, h)
must-next false e f h = cc

pub account-next :
    {A B : Type 0} (o : Option A) (f : A → Attempt B) {b : B}
    → (account o >>= f) ≡ returns b
    → (a : A) × (o ≡ some a) × (f a ≡ returns b)
account-next none f h = cc
account-next (some a) f h = (a, refl, h)

pub absent-next :
    {A B : Type 0} (o : Option A) (f : Unit → Attempt B) {b : B}
    → (absent o >>= f) ≡ returns b
    → (o ≡ none) × (f tt ≡ returns b)
absent-next none f h = (refl, h)
absent-next (some a) f h = cc

pub returns_inj : {A : Type 0} (a b : A) → ◌≡◌ {A = Attempt A} (returns a) (returns b) → a ≡ b
returns_inj a b h = cc
