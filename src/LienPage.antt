-- ===== src/LienPage.antt =====
-- `handleRegister` and `handleRelease` of web/src/pages/LienManagement/LienManagement.tsx. A handler
-- reads the state of the hooks as it was when it was made: `stale` is what it read.
pub mod Handlers
use terra_ledger.Base.{
  ℕ, Bool, true, false, ◌||◌, ◌==◌, if◌then◌else◌, Outcome, ok, throws, ◌>>=◌, Option, none, some,
  List, [], ◌∷◌, ◌++◌, length, Text,
}
use terra_ledger.Bytes.{Bytes, zeros, slice, set}
use terra_ledger.Platform.{Kit, Address}
use terra_ledger.Program.{Instruction, get_parcel_pda}
use terra_ledger.Program.Lien.{
  build_register_encumbrance_instruction, build_release_encumbrance_instruction,
}
use terra_ledger.SignAndSend.{OnChainTxStatus, idle, building, signing, confirming, done, error}

pub data RestTxStatus : Type 0 where
  rest_idle submitting success rest_error : RestTxStatus

-- `address` of @solana/kit and `BigInt`, which throw on a text that is no address or no number
pub record Parsers : Type 0 where
  pub address : Text → Outcome Address
  pub big_int : Text → Outcome ℕ

pub record RegisterForm : Type 0 where
  pub cadastral : Text
  pub amount : Text
  pub wallet : Text
  pub notary_hash : Text

-- What a handler does: the states it sets, in order, the instruction that it sends, and whether it
-- calls the REST API.
pub record Effects : Type 0 where
  pub statuses : List RestTxStatus
  pub sends : Option Instruction
  pub posts : Bool

-- `notaryCertHash`
unfoldable pub notary_cert_hash : Kit → Text → Outcome Bytes
notary_cert_hash kit [] = ok (zeros 32)
notary_cert_hash kit (c ∷ hash) = set (zeros 32) 0 (slice (kit.utf8_encode (c ∷ hash)) 0 32)

-- Step 1 of `handleRegister`
unfoldable pub register_instruction : Kit → Parsers → RegisterForm → Outcome Instruction
register_instruction kit parsers form = do
  lender ← parsers.address form.wallet
  (parcel_pda, _) ← get_parcel_pda kit form.cadastral
  cert_hash ← notary_cert_hash kit form.notary_hash
  amount ← parsers.big_int form.amount
  build_register_encumbrance_instruction kit lender parcel_pda form.cadastral amount (zeros 32)
      cert_hash

abbrev pub is_incomplete : RegisterForm → Bool
is_incomplete form =
    length form.cadastral == 0 || (length form.amount == 0 || length form.wallet == 0)

-- the `catch` of `handleRegister`
unfoldable pub on_failure : OnChainTxStatus → List RestTxStatus
on_failure idle = rest_error ∷ []
on_failure building = rest_error ∷ []
on_failure signing = rest_error ∷ []
on_failure confirming = rest_error ∷ []
on_failure done = rest_error ∷ []
on_failure error = []

-- the state behind `registerLien`, which gives a lien or null
unfoldable pub posted_status : {L : Type 0} → Option L → RestTxStatus
posted_status none = rest_error
posted_status (some lien) = success

-- The `try` with what `signAndSend` and `registerLien` come to.
unfoldable pub send_and_post :
    {L : Type 0} → OnChainTxStatus → Outcome Instruction → Outcome Text → Option L → Effects
send_and_post stale (throws x) reply lien = record {
  statuses = rest_idle ∷ on_failure stale;
  sends = none;
  posts = false;
}
send_and_post stale (ok ix) (throws x) lien = record {
  statuses = rest_idle ∷ on_failure stale;
  sends = some ix;
  posts = false;
}
send_and_post stale (ok ix) (ok signature) lien = record {
  statuses = rest_idle ∷ submitting ∷ posted_status lien ∷ [];
  sends = some ix;
  posts = true;
}

-- The two checks of `handleRegister`: whether a field is missing, and whether a wallet is connected.
unfoldable pub checked_send :
    {L : Type 0}
    → (incomplete wallet_connected : Bool) → OnChainTxStatus
    → Outcome Instruction
    → Outcome Text
    → Option L
    → Effects
checked_send true wallet_connected stale built reply lien = record {
  statuses = [];
  sends = none;
  posts = false;
}
checked_send false false stale built reply lien = record {
  statuses = rest_idle ∷ rest_error ∷ [];
  sends = none;
  posts = false;
}
checked_send false true stale built reply lien = send_and_post stale built reply lien

unfoldable pub handle_register :
    {L : Type 0}
    → Kit
    → Parsers
    → RegisterForm
    → (wallet_connected : Bool) → OnChainTxStatus
    → Outcome Text
    → Option L
    → Effects
handle_register kit parsers form wallet_connected stale reply lien =
    checked_send (is_incomplete form) wallet_connected stale (register_instruction kit parsers form)
      reply lien

-- The instruction of `handleRelease`, where the wallet is connected with an address and a parcel was
-- searched for; what is thrown on the way is dropped.
unfoldable pub release_instruction : Kit → Parsers → Option Text → Text → Option Instruction
release_instruction kit parsers none search_cadastral = none
release_instruction kit parsers (some wallet) [] = none
release_instruction kit parsers (some wallet) (c ∷ search_cadastral) =
    let built =
      (parsers.address wallet >>= λ lender. get_parcel_pda kit (c ∷ search_cadastral) >>= λ derived.
      build_release_encumbrance_instruction kit lender derived.0) in
    elim built [ ok ix ↦ some ix | throws x ↦ none ]

-- `error ? 'error' : 'success'`
unfoldable pub released_status : Option Text → RestTxStatus
released_status none = success
released_status (some []) = success
released_status (some (c ∷ e)) = rest_error

-- with what `signAndSend` and `releaseLien` come to, of which it looks at neither
unfoldable pub handle_release :
    Kit → Parsers → Option Text → Text → Option Text → Outcome Text → Option Text → Effects
handle_release kit parsers wallet search_cadastral stale_error reply new_error = record {
  statuses = submitting ∷ released_status stale_error ∷ [];
  sends = release_instruction kit parsers wallet search_cadastral;
  posts = true;
}
