-- ===== src/Pages/Farmer.antt =====
-- web/src/pages/FarmerPortal/FarmerPortal.tsx: `handleSubmit` and `fetchCertificates`, with the
-- hooks `useSignAndSend` and `useParcel` whose state the page shows. `C` is a certificate as parsed.
use terra_ledger.Base.{
  ℕ, ◌==◌, Bool, true, false, ◌||◌, if◌then◌else◌, Outcome, ok, throws, Thrown, Option, none, some,
  List, [], ◌∷◌, ◌++◌, length, Text, text,
}
use terra_ledger.Bytes.{zeros}
use terra_ledger.Platform.{Kit, Address}
use terra_ledger.Program.{Instruction, build_register_parcel_instruction}
use terra_ledger.SignAndSend.{
  OnChainTxStatus, idle, building, signing, confirming, done, error, Hook, Reply, Settled, returns,
  reset, apply_all, sign_and_send,
}
use terra_ledger.Api.{Client, get}
use terra_ledger.Api.Sdk.{certificates_path}
use terra_ledger.Hooks.{Loader, Parcel, register_parcel}

pub record RegisterParcelInput : Type 0 where
  pub cadastral_number : Text
  pub owner_wallet : Text
  pub area_ha : ℕ
  pub land_class : ℕ
  pub oblast : Text
  pub rayon : Text
  pub holder_name : Text
  pub holder_iin_hash : Text

-- a field with its new value
pub data Field : Type 0 where
  cadastral_number owner_wallet oblast rayon holder_name holder_iin_hash : Text → Field
  area_ha land_class : ℕ → Field

unfoldable pub update : Field → RegisterParcelInput → RegisterParcelInput
update (cadastral_number value) form = record form { cadastral_number = value }
update (owner_wallet value) form = record form { owner_wallet = value }
update (oblast value) form = record form { oblast = value }
update (rayon value) form = record form { rayon = value }
update (holder_name value) form = record form { holder_name = value }
update (holder_iin_hash value) form = record form { holder_iin_hash = value }
update (area_ha value) form = record form { area_ha = value }
update (land_class value) form = record form { land_class = value }

pub record Portal (C : Type 0) : Type 0 where
  pub tx : Hook
  pub parcel : Loader (Option Parcel)
  pub certificates : List C
  pub certs_loading : Bool

-- `TX_STATUS_LABELS`
unfoldable pub status_label : OnChainTxStatus → Text
status_label idle = []
status_label building = text "Building transaction..."
status_label signing = text "Waiting for wallet signature..."
status_label confirming = text "Confirming on-chain..."
status_label done = text "Transaction confirmed!"
status_label error = text "Transaction failed"

unfoldable pub explorer_url : Text → Text
explorer_url sig = text "https://explorer.solana.com/tx/" ++ (sig ++ text "?cluster=devnet")

-- whether a status is none of `idle`, `done` and `error`
unfoldable pub is_under_way : OnChainTxStatus → Bool
is_under_way idle = false
is_under_way building = true
is_under_way signing = true
is_under_way confirming = true
is_under_way done = false
is_under_way error = false

-- the property `disabled` of the button that submits
unfoldable pub submit_disabled : {C : Type 0} → Portal C → Bool
submit_disabled portal = portal.parcel.loading || is_under_way portal.tx.tx_status

abbrev pub is_missing : RegisterParcelInput → Bool
is_missing form = length form.cadastral_number == 0 || length form.owner_wallet == 0

-- `certs ?? []`, or none of them where the request fails
unfoldable pub certificates_or_none : {C : Type 0} → Outcome (Option (List C)) → List C
certificates_or_none (ok (some certs)) = certs
certificates_or_none (ok none) = []
certificates_or_none (throws x) = []

module _ {C : Type 0} (encode : Text → Text) (certs : Client (Option (List C))) where
  unfoldable pub fetch_certificates : Text → Portal C → Portal C
  fetch_certificates [] portal = portal
  fetch_certificates (c ∷ cadastral) portal = record portal {
    certificates = certificates_or_none (get certs (certificates_path encode (c ∷ cadastral)));
    certs_loading = false;
  }

  -- the effect at a change of the parcel that the hook has
  unfoldable pub refetch_certificates : Portal C → Portal C
  refetch_certificates portal = elim portal.parcel.data' [
    | none ↦ portal
    | some parcel ↦ fetch_certificates parcel.cadastral_number portal
  ]

unfoldable pub parcel_instruction : Kit → Address → RegisterParcelInput → Outcome Instruction
parcel_instruction kit wallet form =
    build_register_parcel_instruction kit wallet form.cadastral_number form.area_ha form.land_class
      (zeros 32)

-- whether `signAndSend` returned
unfoldable pub is_sent : Settled → Bool
is_sent (returns signature) = true
is_sent (Settled.throws thrown) = false

module _ (send : List Instruction → Address → Reply) where
  -- The `try` for a connected wallet, and whether the handler goes on.
  unfoldable pub send_parcel : Address → Outcome Instruction → Hook → Hook × Bool
  send_parcel wallet (throws x) tx = (tx, false)
  send_parcel wallet (ok ix) tx =
      let (tx', settled) = sign_and_send send (some wallet) (ix ∷ []) tx in (tx', is_sent settled)

  unfoldable pub register_on_chain : Kit → Option Address → RegisterParcelInput → Hook → Hook × Bool
  register_on_chain kit none form tx = (tx, true)
  register_on_chain kit (some wallet) form tx =
      send_parcel wallet (parcel_instruction kit wallet form) tx

module _ {C : Type 0} (message : Thrown → Option Text) (encode : Text → Text)
    (send : List Instruction → Address → Reply) (certs : Client (Option (List C)))
    (client : Client Parcel) where
  -- `if (result)`
  unfoldable pub fetch_if : {A : Type 0} → Option A → Text → Portal C → Portal C
  fetch_if none cadastral portal = portal
  fetch_if (some result) cadastral portal = fetch_certificates encode certs cadastral portal

  -- with the form as `JSON.stringify` gives it
  unfoldable pub register : Text → RegisterParcelInput → Hook × Bool → Portal C → Portal C
  register payload form (tx, false) portal = record portal { tx = tx }
  register payload form (tx, true) portal =
      let (parcel, result) = register_parcel message encode client payload portal.parcel in
      fetch_if result form.cadastral_number (record portal { tx = tx; parcel = parcel })

  unfoldable pub handle_submit :
      Kit → Option Address → RegisterParcelInput → Text → Portal C → Portal C
  handle_submit kit wallet form payload portal =
      if is_missing form
      then portal
      else register payload form
          (register_on_chain send kit wallet form (apply_all reset portal.tx)) portal
