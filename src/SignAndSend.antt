-- ===== src/SignAndSend.antt =====
-- The hook `useSignAndSend` of web/src/solana/transaction.ts. A call of `signAndSend` runs in two
-- parts, since it waits for `send`: `begin` up to the `await` and `settle` after it. Each part is the
-- list of the state updates that it queues, in order, and what the call returns or throws.
pub mod Calls
pub mod Interleaved
use terra_ledger.Base.{List, [], ◌∷◌, Option, none, some, Text, text}
use terra_ledger.Platform.{Address}
use terra_ledger.Program.{Instruction}
use terra_ledger.Errors.{ErrorValue}
use terra_ledger.Errors.Messages.{parse_transaction_error}

pub data OnChainTxStatus : Type 0 where
  idle building signing confirming done error : OnChainTxStatus

-- the three `useState` values
pub record Hook : Type 0 where
  pub tx_status : OnChainTxStatus
  pub tx_signature : Option Text
  pub tx_error : Option Text

pub data Update : Type 0 where
  set_tx_status : OnChainTxStatus → Update
  set_tx_signature set_tx_error : Option Text → Update

unfoldable pub apply : Update → Hook → Hook
apply (set_tx_status s) hook = record hook { tx_status = s }
apply (set_tx_signature s) hook = record hook { tx_signature = s }
apply (set_tx_error e) hook = record hook { tx_error = e }

unfoldable pub apply_all : List Update → Hook → Hook
unfolding apply
apply_all [] hook = hook
apply_all (update ∷ updates) hook = apply_all updates (apply update hook)

abbrev pub initial : Hook
initial = record { tx_status = idle; tx_signature = none; tx_error = none }

unfoldable pub reset : List Update
reset = set_tx_status idle ∷ set_tx_signature none ∷ set_tx_error none ∷ []

-- What the promise of `send` settles to.
pub data Reply : Type 0 where
  fulfilled : Text → Reply
  rejected : ErrorValue → Reply

-- What the promise of `signAndSend` settles to: its value, or the message of the `Error`.
pub data Settled : Type 0 where
  returns : Text → Settled
  throws : Text → Settled

abbrev pub not_connected_message : Text
not_connected_message = text "Wallet not connected"

-- The part before `send`, and what the call settles to without `send`.
unfoldable pub begin : Option Address → List Update × Option Settled
begin none = (
  set_tx_error (some not_connected_message) ∷ set_tx_status error ∷ [],
  some (throws not_connected_message),
)
begin (some fee_payer) =
    (set_tx_error none ∷ set_tx_status building ∷ set_tx_status signing ∷ [], none)

-- The part after `send`, the `catch` included.
unfoldable pub settle : Reply → List Update × Settled
settle (fulfilled sig) =
    (set_tx_status confirming ∷ set_tx_signature (some sig) ∷ set_tx_status done ∷ [], returns sig)
settle (rejected err) =
    let message = parse_transaction_error err in
    (set_tx_error (some message) ∷ set_tx_status error ∷ [], throws message)

-- A call that nothing interrupts.
unfoldable pub sign_and_send :
    (List Instruction → Address → Reply) → Option Address → List Instruction → Hook → Hook × Settled
unfolding begin settle apply_all
sign_and_send send none instructions hook =
    (apply_all (begin none).0 hook, throws not_connected_message)
sign_and_send send (some fee_payer) instructions hook =
    let (updates, settled) = settle (send instructions fee_payer) in
    (apply_all updates (apply_all (begin (some fee_payer)).0 hook), settled)
