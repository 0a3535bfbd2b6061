-- ===== src/Hooks/Loading.antt =====
-- `useLien` with any number of calls at once.
use terra_ledger.Base.{
  ℕ, suc, false, arith, ◌≡◌, refl, Outcome, ok, throws, Thrown, Option, none, List, [], Text,
}
use terra_ledger.Hooks.{Loader, start_loading, settle}
use terra_ledger.Hooks.Liens.{Encumbrance, settle_fetch, settle_register, settle_release}

pub record Config : Type 0 where
  pub hook : Loader (List Encumbrance)
  pub pending : ℕ

pub data Step (message : Thrown → Option Text) (c : Config) : Config → Type 1 where
  begins : Step message c (record { hook = start_loading c.hook; pending = suc c.pending })
  fetched :
      (n : ℕ) (reply : Outcome (List Encumbrance))
      → c.pending ≡ suc n
      → Step message c (record { hook = settle_fetch message reply c.hook; pending = n })
  registered :
      (n : ℕ) (reply : Outcome Encumbrance)
      → c.pending ≡ suc n
      → Step message c (record { hook = (settle_register message reply c.hook).0; pending = n })
  was_released :
      {J : Type 0} (n : ℕ) (lien_id : Text) (reply : Outcome J)
      → c.pending ≡ suc n
      → Step message c (record { hook = settle_release message lien_id reply c.hook; pending = n })

abbrev pub initial : Config
initial = record { hook = record { data' = []; loading = false; error = none }; pending = 0 }

pub data Reachable (message : Thrown → Option Text) : Config → Type 1 where
  start : Reachable message initial
  next : (a b : Config) → Reachable message a → Step message a b → Reachable message b

settle-loading :
    {A B : Type 0} (message : Thrown → Option Text) (fallback : Text) (accept : B → A → A)
    (reply : Outcome B) (hook : Loader A)
    → (settle message fallback accept reply hook).0.loading ≡ false
unfolding settle
settle-loading message fallback accept (ok b) hook = refl
settle-loading message fallback accept (throws x) hook = refl

Step-loading :
    (message : Thrown → Option Text) (a c : Config)
    → Step message a c
    → c.pending ≡ 0
    → c.hook.loading ≡ false
unfolding settle_fetch settle_register settle_release
Step-loading message a _ begins none' = absurd (omega arith)
Step-loading message a _ (fetched n reply e) none' = settle-loading message _ _ reply a.hook
Step-loading message a _ (registered n reply e) none' = settle-loading message _ _ reply a.hook
Step-loading message a _ (was_released n lien_id reply e) none' =
    settle-loading message _ _ reply a.hook

-- However the calls of `fetchLiens`, `registerLien` and `releaseLien` overlap, the hook is not
-- loading when all of them have settled.
pub Reachable-loading :
    (message : Thrown → Option Text) (c : Config)
    → Reachable message c
    → c.pending ≡ 0
    → c.hook.loading ≡ false
Reachable-loading message _ start none' = refl
Reachable-loading message c (next a _ r step) none' = Step-loading message a c step none'
