-- ===== src/Hooks/Liens.antt =====
-- `useLien` of web/src/hooks/useLien.ts, with `Encumbrance` of useCreditProfile.ts.
use terra_ledger.Base.{
  ℕ, if◌then◌else◌, Outcome, Thrown, Option, some, List, [], ◌∷◌, ◌++◌, map, Text, text,
}
use terra_ledger.Bytes.{bytes_eq}
use terra_ledger.Api.{Client, get, post}
use terra_ledger.Api.Sdk.{liens_path, release_path}
use terra_ledger.Hooks.{Loader, start_loading, settle}

pub data LienStatus : Type 0 where
  active released disputed : LienStatus

pub record Encumbrance : Type 0 where
  pub id : Text
  pub parcel_id : Text
  pub cadastral_number : Text
  pub lender_wallet : Text
  pub lender_name : Option Text
  pub amount_tenge : ℕ
  pub notary_cert_hash : Option Text
  pub on_chain_address : Option Text
  pub tx_signature : Option Text
  pub status : LienStatus
  pub registered_at : Text
  pub released_at : Option Text

-- the function that `releaseLien` maps over the list
unfoldable pub release_one : Text → Encumbrance → Encumbrance
release_one lien_id l = if bytes_eq l.id lien_id then record l { status = released } else l

-- What the three calls do after their request.
module _ (message : Thrown → Option Text) where
  unfoldable pub settle_fetch :
      Outcome (List Encumbrance) → Loader (List Encumbrance) → Loader (List Encumbrance)
  settle_fetch reply hook =
      (settle message (text "Failed to fetch liens") (λ resp prev. resp) reply hook).0

  unfoldable pub settle_register :
      Outcome Encumbrance
      → Loader (List Encumbrance)
      → Loader (List Encumbrance) × Option Encumbrance
  settle_register reply hook =
      settle message (text "Failed to register lien") (λ resp prev. prev ++ (resp ∷ [])) reply hook

  unfoldable pub settle_release :
      {J : Type 0} → Text → Outcome J → Loader (List Encumbrance) → Loader (List Encumbrance)
  settle_release lien_id reply hook =
      (settle message (text "Failed to release lien") (λ resp prev. map (release_one lien_id) prev)
        reply hook).0

-- The whole calls, where nothing else happens while they wait.
module _ (message : Thrown → Option Text) (encode : Text → Text) where
  unfoldable pub fetch_liens :
      Client (List Encumbrance) → Text → Loader (List Encumbrance) → Loader (List Encumbrance)
  fetch_liens client cadastral hook =
      settle_fetch message (get client (liens_path encode cadastral)) (start_loading hook)

  unfoldable pub register_lien :
      Client Encumbrance
      → Text
      → Loader (List Encumbrance)
      → Loader (List Encumbrance) × Option Encumbrance
  register_lien client payload hook =
      settle_register message (post client (text "/api/v1/liens") (some payload))
        (start_loading hook)

  unfoldable pub release_lien :
      {J : Type 0} → Client J → Text → Loader (List Encumbrance) → Loader (List Encumbrance)
  release_lien client lien_id hook =
      settle_release message lien_id (post client (release_path encode lien_id) (some (text "{}")))
        (start_loading hook)
