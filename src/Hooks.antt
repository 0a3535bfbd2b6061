-- ===== src/Hooks.antt =====
-- The data hooks of web/src/hooks: their state, and what a call makes of it before and after its
-- request. `encode` is `encodeURIComponent`; `message` is the message of what is thrown, where that
-- is an `Error`.
pub mod Liens
pub mod Loading
pub mod Released
pub mod Lists
use terra_ledger.Base.{
  ℕ, Bool, true, false, Outcome, ok, throws, Thrown, Option, none, some, Text, text, ◌++◌,
}
use terra_ledger.Api.{Client, get, post}
use terra_ledger.Api.Sdk.{parcel_path, profile_path}

-- the three `useState` values of a hook
pub record Loader (A : Type 0) : Type 0 where
  pub data' : A
  pub loading : Bool
  pub error : Option Text

abbrev pub start_loading : {A : Type 0} → Loader A → Loader A
start_loading hook = record hook { loading = true; error = none }

-- `err instanceof Error ? err.message : fallback`
abbrev pub message_or : Option Text → Text → Text
message_or none fallback = fallback
message_or (some m) fallback = m

-- The `try`, `catch` and `finally` behind the request, and the value that the call returns.
unfoldable pub settle :
    {A B : Type 0}
    → (Thrown → Option Text)
    → Text
    → (B → A → A)
    → Outcome B
    → Loader A
    → Loader A × Option B
settle message fallback accept (ok b) hook =
    (record hook { data' = accept b hook.data'; loading = false }, some b)
settle message fallback accept (throws x) hook =
    (record hook { error = some (message_or (message x) fallback); loading = false }, none)

-- `Parcel` of useParcel.ts
pub record Parcel : Type 0 where
  pub id : Text
  pub cadastral_number : Text
  pub owner_wallet : Text
  pub on_chain_address : Option Text
  pub area_ha : ℕ
  pub land_class : ℕ
  pub kyc_verified : Bool
  pub oblast : Option Text
  pub rayon : Option Text
  pub holder_name : Option Text
  pub registered_at : Text
  pub updated_at : Text

module _ (message : Thrown → Option Text) (encode : Text → Text) where
  unfoldable pub fetch_parcel :
      Client Parcel → Text → Loader (Option Parcel) → Loader (Option Parcel) × Option Parcel
  fetch_parcel client cadastral hook =
      settle message (text "Failed to fetch parcel") (λ resp prev. some resp)
        (get client (parcel_path encode cadastral)) (start_loading hook)

  -- with the input as `JSON.stringify` gives it
  unfoldable pub register_parcel :
      Client Parcel → Text → Loader (Option Parcel) → Loader (Option Parcel) × Option Parcel
  register_parcel client input hook =
      settle message (text "Failed to register parcel") (λ resp prev. some resp)
        (post client (text "/api/v1/parcels") (some input)) (start_loading hook)

  -- the profile as it is parsed, of any type
  unfoldable pub fetch_profile :
      {P : Type 0} → Client P → Text → Loader (Option P) → Loader (Option P) × Option P
  fetch_profile client cadastral hook =
      settle message (text "Failed to fetch credit profile") (λ resp prev. some resp)
        (get client (profile_path encode cadastral)) (start_loading hook)
