-- ===== src/Deeplink/Sign.antt =====
-- `signAndSendTransaction` of web/src/solana/usePhantomDeeplink.ts, one call of it: the part up to
-- the request for a session, the part after it, the runs of the interval, and the end of
-- `submitSignedTransaction`. Two calls that overlap, which would share `signPollRef`, are left out.
use terra_ledger.Base.{
  ℕ, ◌-◌, Bool, true, false, ltb, if◌then◌else◌, Outcome, ok, throws, Thrown, error, ◌>>=◌,
}
use terra_ledger.Base.{Option, none, some, List, [], ◌∷◌, ◌++◌, Text, text}
use terra_ledger.Bytes.{Bytes}
use terra_ledger.Platform.{Kit}
use terra_ledger.Deeplink.{
  Browser, DappKeyPair, Storage, present, get_dapp_key_pair, build_sign_transaction_url,
  decrypt_sign_response,
}
use terra_ledger.Deeplink.Connect.{
  PollResponse, status_pending, status_connected, status_error, status_expired, max_poll_time,
  present_or, sealed_fields,
}

pub data SignStatus : Type 0 where
  sign_idle sign_waiting sign_done sign_error : SignStatus

-- What the promise settles to: a signature, or the message of the error.
pub data Settled : Type 0 where
  resolved : Text → Settled
  rejected : Text → Settled

-- The state of the hook, whether the interval lives, what the promise has settled to, the
-- transactions that were submitted and whether a submission has not ended.
pub record Call : Type 0 where
  pub sign_qr_url : Option Text
  pub sign_status : SignStatus
  pub polling : Bool
  pub promise : Option Settled
  pub submitted : List (Option Text)
  pub submitting : Bool

-- `resolve` and `reject`, of which only the first has an effect
unfoldable pub settle : Settled → Call → Call
settle settled call = elim call.promise [
  | none ↦ record call { promise = some settled }
  | some earlier ↦ call
]

unfoldable pub stop_sign_polling : Call → Call
stop_sign_polling call = record call { polling = false }

abbrev pub fail_sign : Text → Call → Call
fail_sign message call = settle (rejected message) (record call { sign_status = sign_error })

-- The session and Phantom's key, which a connection has stored.
unfoldable pub stored_connection : Storage → Outcome (Text × Text)
stored_connection storage = elim (present storage.session) [
  | none ↦ throws (error (text "Phantom deeplink not connected. Please reconnect wallet."))
  | some session ↦ elim (present storage.pubkey) [
    | none ↦ throws (error (text "Missing Phantom encryption key. Please reconnect wallet."))
    | some phantom_pub_key ↦ ok (session, phantom_pub_key)
  ]
]

abbrev pub waiting_call : Text → Call
waiting_call url = record {
  sign_qr_url = some url;
  sign_status = sign_waiting;
  polling = true;
  promise = none;
  submitted = [];
  submitting = false;
}

-- Everything up to the start of the interval, with what the request for a session gives.
unfoldable pub open_sign :
    Kit → Browser → DappKeyPair → Bytes → Outcome Text → Text → Storage → Outcome (Call × Storage)
open_sign kit browser fresh nonce reply transaction_b58 storage = do
  (session, phantom_pub_key) ← stored_connection storage
  session_id ← reply
  (key_pair, storage') ← get_dapp_key_pair browser fresh storage
  url ←
      build_sign_transaction_url kit browser key_pair session phantom_pub_key transaction_b58
        session_id nonce
  ok (waiting_call url, storage')

abbrev pub timed_out_message : Text
timed_out_message = text "Transaction signing timed out"

abbrev pub unexpected_message : Text
unexpected_message = text "Unexpected response from Phantom"

-- A run of the interval up to its request, and whether it makes one.
unfoldable pub sign_tick : ℕ → ℕ → Call → Call × Bool
sign_tick start now call =
    if ltb max_poll_time (now - start)
    then (
      settle (rejected timed_out_message)
          (record (stop_sign_polling call) { sign_status = sign_error; sign_qr_url = none }),
      false,
    )
    else (call, true)

module _ (kit : Kit) (browser : Browser) where
  -- the message of what the inner `catch` rejects with
  unfoldable pub submit_message : Thrown → Text
  submit_message x = elim (browser.message x) [
    | none ↦ text "Failed to submit transaction"
    | some message ↦ message
  ]

  -- the part with the three fields, up to the end of the decryption or the call of
  -- `submitSignedTransaction`
  unfoldable pub accept_signed : DappKeyPair → PollResponse → Call → Call
  accept_signed key_pair resp call = elim (sealed_fields resp) [
    | none ↦ fail_sign unexpected_message call
    | some (key, nonce, sealed) ↦
        elim (decrypt_sign_response kit browser key nonce sealed key_pair) [
          | throws x ↦ fail_sign (submit_message x) call
          | ok transaction ↦ record call {
            submitted = call.submitted ++ (transaction ∷ []);
            submitting = true;
          }
        ]
  ]

  -- A run of the interval after its request.
  unfoldable pub sign_answer : DappKeyPair → Outcome PollResponse → Call → Call
  sign_answer key_pair (throws x) call = call
  sign_answer key_pair (ok resp) call =
      let stopped = record (stop_sign_polling call) { sign_qr_url = none } in
      elim resp.status [
        | status_pending ↦ call
        | status_error ↦
            fail_sign (present_or (text "Transaction rejected") resp.error_message) stopped
        | status_connected ↦ accept_signed key_pair resp stopped
        | status_expired ↦ accept_signed key_pair resp stopped
      ]

  -- what follows `await submitSignedTransaction`
  unfoldable pub submit_end : Outcome Text → Call → Call
  submit_end (ok signature) call =
      settle (resolved signature) (record call { sign_status = sign_done; submitting = false })
  submit_end (throws x) call = fail_sign (submit_message x) (record call { submitting = false })
