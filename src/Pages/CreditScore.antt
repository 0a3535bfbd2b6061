-- ===== src/Pages/CreditScore.antt =====
-- web/src/pages/WizardFlow/steps/CreditScoreStep.tsx: the requests of its effects and what it shows.
-- `ci` is the property `credit_intelligence` of a profile.
use terra_ledger.Base.{
  ℕ, zero, suc, ltb, Bool, false, not, ◌&&◌, ◌||◌, ◌==◌, if◌then◌else◌, Option, none, some, Text,
  length, is_some, Thrown,
}
use terra_ledger.Api.{Client}
use terra_ledger.Hooks.{Loader, fetch_profile}

abbrev pub max_retries : ℕ
max_retries = 3

abbrev pub no_profile : {P : Type 0} → Loader (Option P)
no_profile = record { data' = none; loading = false; error = none }

pub data Screen (C : Type 0) : Type 0 where
  waiting : (retry_count : ℕ) → Screen C
  failed : Text → Screen C
  scored : Option C → Screen C

-- `error && !ci`, behind the check for a request or a retry
unfoldable pub failed_or_scored : {C : Type 0} → Option Text → Option C → Screen C
failed_or_scored error (some c) = scored (some c)
failed_or_scored none none = scored none
failed_or_scored (some message) none = if length message == 0 then scored none else failed message

module _ {P C : Type 0} (ci : P → Option C) where
  -- `data?.credit_intelligence`
  unfoldable pub intelligence : Option P → Option C
  intelligence none = none
  intelligence (some p) = ci p

  unfoldable pub screen : Loader (Option P) → ℕ → Screen C
  screen hook retry_count =
      if hook.loading || (not (is_some (intelligence hook.data')) && ltb retry_count max_retries)
      then waiting retry_count
      else failed_or_scored hook.error (intelligence hook.data')

  -- whether the second effect starts its timer, for a cadastral number that is not empty
  unfoldable pub retries : Loader (Option P) → ℕ → Bool
  retries hook retry_count =
      not hook.loading
      && (is_some hook.data'
          && (not (is_some (intelligence hook.data')) && ltb retry_count max_retries))

  -- The effects: a request whenever `retryCount` changes, and the timer that changes it. `clients`
  -- answers each request, and the number bounds the requests.
  unfoldable pub run_effects :
      (Thrown → Option Text)
      → (Text → Text)
      → (ℕ → Client P)
      → Text
      → ℕ
      → ℕ
      → Loader (Option P)
      → Loader (Option P) × ℕ
  run_effects message encode clients cadastral zero retry_count hook = (hook, retry_count)
  run_effects message encode clients cadastral (suc n) retry_count hook =
      let fetched = (fetch_profile message encode (clients retry_count) cadastral hook).0 in
      let rest = run_effects message encode clients cadastral n (suc retry_count) fetched in
      if retries fetched retry_count then rest else (fetched, retry_count)
