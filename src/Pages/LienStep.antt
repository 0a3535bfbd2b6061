-- ===== src/Pages/LienStep.antt =====
-- `handleSubmit` of web/src/pages/WizardFlow/steps/RegisterLienStep.tsx, with the two hooks that it
-- calls. `message` is the message of what is thrown, where that is an `Error`, and `encode` is
-- `encodeURIComponent`.
use terra_ledger.Base.{
  ℕ, ◌==◌, Bool, true, false, not, ◌&&◌, ◌||◌, is_some, if◌then◌else◌, Outcome, ok, throws,
  range_error, Thrown, ◌>>=◌, Option, none, some, List, [], ◌∷◌, ◌++◌, Text, text,
}
use terra_ledger.Bytes.{zeros}
use terra_ledger.Platform.{Kit, Address}
use terra_ledger.Program.{Instruction, get_parcel_pda}
use terra_ledger.Program.Lien.{build_register_encumbrance_instruction}
use terra_ledger.SignAndSend.{Hook, Reply, Settled, returns, sign_and_send}
use terra_ledger.Api.{Client}
use terra_ledger.Hooks.{Loader, message_or}
use terra_ledger.Hooks.Liens.{Encumbrance, register_lien}
use terra_ledger.LienPage.{notary_cert_hash}
use terra_ledger.Deeplink.{present}
use terra_ledger.Deeplink.Connect.{DeeplinkStatus}
use terra_ledger.Pages.WalletSetup.{opens_connection}

-- What `Number` makes of the amount: NaN, less than 0, an integer, or above 0 and no integer.
pub data Amount : Type 0 where
  not_a_number below_zero fractional : Amount
  whole : ℕ → Amount

-- the check before anything is sent, `!amountNum || amountNum <= 0` negated
unfoldable pub is_positive : Amount → Bool
is_positive not_a_number = false
is_positive below_zero = false
is_positive fractional = true
is_positive (whole n) = not (n == 0)

-- `BigInt` of a number that the check lets through, which is above 0
unfoldable pub big_int : Amount → Outcome ℕ
big_int not_a_number = throws range_error
big_int below_zero = throws range_error
big_int fractional = throws range_error
big_int (whole n) = ok n

-- the state of the step, of `useSignAndSend` and of `useLien`, and the toasts raised
pub record LienStep : Type 0 where
  pub error : Option Text
  pub success : Bool
  pub submitting : Bool
  pub toasts : List Text
  pub tx : Hook
  pub liens : Loader (List Encumbrance)

-- The wallet that the step goes on with: the extension's, that of the deeplink, or the stored one.
unfoldable pub wallet_address : Option Text → Option Text → Option Text → Option Text
wallet_address (some extension_wallet) deeplink_wallet stored_wallet = some extension_wallet
wallet_address none deeplink_wallet stored_wallet = elim (present deeplink_wallet) [
  | some wallet ↦ some wallet
  | none ↦ stored_wallet
]

unfoldable pub has_wallet : (extension_connected : Bool) → Option Text → Bool
has_wallet extension_connected wallet = extension_connected || is_some (present wallet)

-- whether the effect calls `connectViaQR`
unfoldable pub connects_without : (has_wallet has_extension : Bool) → DeeplinkStatus → Bool
connects_without has_wallet has_extension status =
    not has_wallet && opens_connection has_extension status

unfoldable pub lien_instruction : Kit → Address → Text → Amount → Text → Outcome Instruction
unfolding big_int
lien_instruction kit lender cadastral amount notary_hash = do
  (parcel_pda, _) ← get_parcel_pda kit cadastral
  cert_hash ← notary_cert_hash kit notary_hash
  n ← big_int amount
  build_register_encumbrance_instruction kit lender parcel_pda cadastral n (zeros 32) cert_hash

abbrev pub failed_message : Text
failed_message = text "Failed to register lien"

-- the message of the `Error` that `signAndSend` throws
unfoldable pub failure : Settled → Option Text
failure (returns signature) = none
failure (Settled.throws thrown) = some thrown

module _ (message : Thrown → Option Text) (send : List Instruction → Address → Reply) where
  -- `await signAndSend([ix])`, with what is thrown up to there
  unfoldable pub send_built : Address → Outcome Instruction → Hook → Hook × Option Text
  send_built lender (throws x) tx = (tx, some (message_or (message x) failed_message))
  send_built lender (ok ix) tx =
      let (tx', settled) = sign_and_send send (some lender) (ix ∷ []) tx in (tx', failure settled)

  -- The part for an extension wallet, where one is connected.
  unfoldable pub send_lien : Kit → Option Address → Text → Amount → Text → Hook → Hook × Option Text
  send_lien kit none cadastral amount notary_hash tx = (tx, none)
  send_lien kit (some lender) cadastral amount notary_hash tx =
      send_built lender (lien_instruction kit lender cadastral amount notary_hash) tx

module _ (message : Thrown → Option Text) (encode : Text → Text)
    (send : List Instruction → Address → Reply) where
  -- Behind that part, with the message of what it threw, and the payload as `JSON.stringify` gives it.
  unfoldable pub finish : Client Encumbrance → Text → Hook × Option Text → LienStep → LienStep
  finish client payload (tx, none) s = record s {
    error = none;
    success = true;
    submitting = false;
    tx = tx;
    liens = (register_lien message encode client payload s.liens).0;
  }
  finish client payload (tx, some msg) s = record s {
    error = some msg;
    submitting = false;
    toasts = s.toasts ++ (msg ∷ []);
    tx = tx;
  }

  unfoldable pub handle_submit :
      Kit → Client Encumbrance → Option Address → Text → Amount → Text → Text → LienStep → LienStep
  handle_submit kit client wallet cadastral amount notary_hash payload s =
      if is_positive amount
      then finish client payload
          (send_lien message send kit wallet cadastral amount notary_hash s.tx) s
      else record s { error = some (text "Please enter a valid amount") }
