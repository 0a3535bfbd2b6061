-- ===== src/Deeplink/LateAnswers.antt =====
-- A call of `signAndSendTransaction` where two requests of its interval overlap.
use terra_ledger.Base.{true, ◌≡◌, refl, Outcome, ok, throws}
use terra_ledger.Base.{Option, none, some, [], ◌∷◌, ◌++◌, Text}
use terra_ledger.Platform.{Kit}
use terra_ledger.Deeplink.{Browser, DappKeyPair, decrypt_sign_response}
use terra_ledger.Deeplink.Connect.{PollResponse, status_connected, status_expired, sealed_fields}
use terra_ledger.Deeplink.Sign.{
  Call, Settled, rejected, sign_error, settle, stop_sign_polling, unexpected_message, accept_signed,
  sign_answer, submit_end,
}
use terra_ledger.Deeplink.Signing.{quiet, settle-none}

sign_answer-unexpected :
    (kit : Kit) (browser : Browser) (key_pair : DappKeyPair) (resp : PollResponse) (call : Call)
    → call.promise ≡ none
    → resp.status ≡ status_expired
    → sealed_fields resp ≡ none
    → sign_answer kit browser key_pair (ok resp) call ≡ record (quiet call) {
      sign_status = sign_error;
      promise = some (rejected unexpected_message);
    }
unfolding sign_answer accept_signed stop_sign_polling
sign_answer-unexpected kit browser key_pair resp call unsettled expired missing =
    rw (expired, sign_answer, missing, accept_signed)
      (settle-none (rejected unexpected_message) (record (quiet call) { sign_status = sign_error })
        unsettled)

sign_answer-opens :
    (kit : Kit) (browser : Browser) (key_pair : DappKeyPair) (resp : PollResponse)
    (key nonce sealed : Text) (transaction : Option Text) (call : Call)
    → resp.status ≡ status_connected
    → sealed_fields resp ≡ some (key, nonce, sealed)
    → decrypt_sign_response kit browser key nonce sealed key_pair ≡ ok transaction
    → sign_answer kit browser key_pair (ok resp) call
      ≡ record (quiet call) { submitted = call.submitted ++ (transaction ∷ []); submitting = true }
unfolding sign_answer accept_signed stop_sign_polling
sign_answer-opens kit browser key_pair resp key nonce sealed transaction call answered fields
      opened =
    rw (answered, sign_answer, fields, accept_signed, opened) refl

submit_end-settled :
    (kit : Kit) (browser : Browser) (reply : Outcome Text) (settled : Settled) (call : Call)
    → call.promise ≡ some settled
    → (submit_end kit browser reply call).promise ≡ some settled
unfolding submit_end settle
submit_end-settled kit browser (ok signature) settled call e = rw (e, settle) e
submit_end-settled kit browser (throws x) settled call e = rw (e, settle) e

-- Where requests overlap: an answer without the three fields rejects the open promise, and one with
-- them that comes later, and decrypts, submits its transaction all the same. The promise stays
-- rejected however the submission ends.
pub sign_answer-late :
    (kit : Kit) (browser : Browser) (key_pair : DappKeyPair) (early late : PollResponse)
    (key nonce sealed : Text) (transaction : Option Text) (reply : Outcome Text) (call : Call)
    → call.promise ≡ none
    → early.status ≡ status_expired
    → sealed_fields early ≡ none
    → late.status ≡ status_connected
    → sealed_fields late ≡ some (key, nonce, sealed)
    → decrypt_sign_response kit browser key nonce sealed key_pair ≡ ok transaction
    → let after =
        sign_answer kit browser key_pair
          (ok late)
          (sign_answer kit browser key_pair (ok early) call) in
      (after.submitted ≡ call.submitted ++ (transaction ∷ []))
      × (after.promise ≡ some (rejected unexpected_message))
      × ((submit_end kit browser reply after).promise ≡ some (rejected unexpected_message))
sign_answer-late kit browser key_pair early late key nonce sealed transaction reply call unsettled
      expired missing answered fields opened =
    rw
      (
        sign_answer-unexpected kit browser key_pair early call unsettled expired missing,
        sign_answer-opens kit browser key_pair late key nonce sealed transaction
            (record (quiet call) {
              sign_status = sign_error;
              promise = some (rejected unexpected_message);
            })
            answered fields opened,
      )
      (refl, refl, submit_end-settled kit browser reply (rejected unexpected_message) _ refl)
