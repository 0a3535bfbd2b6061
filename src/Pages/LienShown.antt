-- ===== src/Pages/LienShown.antt =====
-- When RegisterLienStep.tsx shows that a lien is registered.
use terra_ledger.Base.{
  Bool, true, false, if◌then◌else◌, ◌≡◌, refl, ap, ◌∙◌, Option, none, some, Outcome, ok, throws,
  Text, text, [], ◌∷◌, List, Thrown,
}
use terra_ledger.Platform.{Kit, Address}
use terra_ledger.Program.{Instruction}
use terra_ledger.SignAndSend.{
  Hook, Reply, fulfilled, rejected, begin, settle, apply_all, apply, sign_and_send,
}
use terra_ledger.Api.{Client, post}
use terra_ledger.Hooks
use terra_ledger.Hooks.{Loader, message_or}
use terra_ledger.Hooks.Liens.{Encumbrance, register_lien, settle_register}
use terra_ledger.Pages.LienStep.{
  Amount, is_positive, LienStep, lien_instruction, failed_message, failure, send_built, send_lien,
  finish, handle_submit,
}

-- A transaction that the wallet signed, and its signature in the state of the hook.
abbrev pub Signed :
    (List Instruction → Address → Reply) → Address → Outcome Instruction → Hook → Type 0
Signed send lender built tx =
    (ix : Instruction) × (signature : Text) × (built ≡ ok ix)
    × (send (ix ∷ []) lender ≡ fulfilled signature)
    × (tx.tx_signature ≡ some signature)

settle-fulfilled :
    (reply : Reply) (tx : Hook)
    → failure (settle reply).1 ≡ none
    → (signature : Text) × (reply ≡ fulfilled signature)
      × ((apply_all (settle reply).0 tx).tx_signature ≡ some signature)
unfolding settle apply_all apply failure
settle-fulfilled (fulfilled signature) tx quiet = (signature, refl, refl)
settle-fulfilled (rejected err) tx quiet = cc

module _ (message : Thrown → Option Text) (send : List Instruction → Address → Reply) where
  send_built-Signed :
      (lender : Address) (built : Outcome Instruction) (tx : Hook)
      → (send_built message send lender built tx).1 ≡ none
      → Signed send lender built (send_built message send lender built tx).0
  unfolding send_built sign_and_send begin
  send_built-Signed lender (throws x) tx quiet = cc
  send_built-Signed lender (ok ix) tx quiet =
      let (signature, sent, shown) = settle-fulfilled (send (ix ∷ []) lender) _ quiet in
      (ix, signature, refl, sent, shown)

module _ (message : Thrown → Option Text) (encode : Text → Text)
    (send : List Instruction → Address → Reply) (client : Client Encumbrance) (payload : Text) where
  abbrev checked_finish : Bool → Hook × Option Text → LienStep → LienStep
  checked_finish positive chain s =
      if positive
      then finish message encode send client payload chain s
      else record s { error = some (text "Please enter a valid amount") }

  finish-success :
      (positive : Bool) (chain : Hook × Option Text) (s : LienStep)
      → s.success ≡ false
      → (checked_finish positive chain s).success ≡ true
      → (positive ≡ true) × (chain.1 ≡ none) × ((checked_finish positive chain s).tx ≡ chain.0)
  unfolding finish
  finish-success true (tx, none) s before after = (refl, refl, refl)
  finish-success true (tx, some msg) s before after = cc
  finish-success false chain s before after = cc

  -- Where a wallet is connected, `handleSubmit` of RegisterLienStep shows success only if it built an
  -- instruction from a positive amount, the wallet signed it, and its signature is in the state of
  -- useSignAndSend.
  pub handle_submit-Signed :
      (kit : Kit) (lender : Address) (cadastral : Text) (amount : Amount) (notary_hash : Text)
      (s : LienStep)
      → s.success ≡ false
      → (handle_submit message encode send kit client
          (some lender)
          cadastral
          amount
          notary_hash
          payload
          s).success
        ≡ true
      → (is_positive amount ≡ true)
        × Signed send lender
            (lien_instruction kit lender cadastral amount notary_hash)
            (handle_submit message encode send kit client
              (some lender)
              cadastral
              amount
              notary_hash
              payload
              s).tx
  unfolding handle_submit send_lien
  handle_submit-Signed kit lender cadastral amount notary_hash s before after =
      let built = lien_instruction kit lender cadastral amount notary_hash in
      let chain = send_built message send lender built s.tx in
      let (positive, quiet, same) = finish-success (is_positive amount) chain s before after in
      let (ix, signature, e, sent, shown) =
        send_built-Signed message send lender built s.tx quiet in
      (positive, (ix, signature, e, sent, ap (λ (t : Hook). t.tx_signature) same ∙ shown))

  finish_unrecorded :
      (chain : Hook × Option Text) (s : LienStep) (x : Thrown)
      → chain.1 ≡ none
      → post client (text "/api/v1/liens") (some payload) ≡ throws x
      → let s' = finish message encode send client payload chain s in
        (s'.success ≡ true)
        × (s'.error ≡ none)
        × (s'.liens.data' ≡ s.liens.data')
        × (s'.liens.error ≡ some (message_or (message x) failed_message))
  unfolding finish register_lien settle_register Hooks.settle
  finish_unrecorded (tx, none) s x quiet lost = (refl, refl, rw lost refl, rw lost refl)
  finish_unrecorded (tx, some msg) s x quiet lost = cc

  -- Where the amount is positive and nothing was thrown up to there, `handleSubmit` shows success and
  -- no error though the request of `registerLien` fails: its error is in the state of `useLien` alone,
  -- whose liens are as they were.
  pub handle_submit-unrecorded :
      (kit : Kit) (wallet : Option Address) (cadastral : Text) (amount : Amount)
      (notary_hash : Text) (s : LienStep) (x : Thrown)
      → is_positive amount ≡ true
      → (send_lien message send kit wallet cadastral amount notary_hash s.tx).1 ≡ none
      → post client (text "/api/v1/liens") (some payload) ≡ throws x
      → let s' =
          handle_submit message encode send kit client wallet cadastral amount notary_hash payload
            s in
        (s'.success ≡ true)
        × (s'.error ≡ none)
        × (s'.liens.data' ≡ s.liens.data')
        × (s'.liens.error ≡ some (message_or (message x) failed_message))
  unfolding handle_submit
  handle_submit-unrecorded kit wallet cadastral amount notary_hash s x positive quiet lost =
      rw positive (
        finish_unrecorded (send_lien message send kit wallet cadastral amount notary_hash s.tx) s x
          quiet lost)
