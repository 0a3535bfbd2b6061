-- ===== src/Examples/LienStep.antt =====
-- A lender registers a lien in the wizard.
use terra_ledger.Base.{
  true, ◌≡◌, false, ok, throws, none, some, Text, text, List, [], ◌∷◌, refl, ◌∙◌, ◌%◌, ◌^◌, foreign,
}
use terra_ledger.Platform.{Address}
use terra_ledger.Platform.Sample.{sample}
use terra_ledger.Program.{Instruction}
use terra_ledger.SignAndSend.{Reply, fulfilled, rejected, initial, sign_and_send, settle}
use terra_ledger.Api.{Client, post, request}
use terra_ledger.Hooks.{message_or}
use terra_ledger.Hooks.Liens.{Encumbrance}
use terra_ledger.LienPage.{register_instruction}
use terra_ledger.Pages.LienStep.{
  LienStep, whole, is_positive, big_int, lien_instruction, send_built, send_lien, failure, finish,
  handle_submit, failed_message,
}
use terra_ledger.Pages.LienShown.{Signed, handle_submit-Signed, handle_submit-unrecorded}
use terra_ledger.Errors.{string}
use terra_ledger.Bytes.{Bytes, zeros}
use terra_ledger.Accounts.Layout.{ParcelConfig}
use terra_ledger.LienPage.{notary_cert_hash}
use terra_ledger.LienPage.Handlers.{notary_cert_hash-total}
use terra_ledger.Chain.{Store, Attempt, returns, fails}
use terra_ledger.Chain.Lien.{new_lien}
use terra_ledger.Chain.Execute.{execute_lien}
use terra_ledger.Chain.Client.{execute_lien-build}
use terra_ledger.Pages.LienPledged.{handle_submit-pledged, lien_instruction_lem}
use terra_ledger.Examples.Chain.{
  to_kz1, now, with_parcel, lien_at, index_at, kz1_pda_key, lender_key, registered_three,
}
use terra_ledger.Examples.LienPage.{form-built, kz1-short}
use terra_ledger.Examples.Samples.{kz1, lender, kz1_pda, lien_pda, index_pda, kz1-derived}
use terra_ledger.Examples.Clients.{silent, as_it_is, signs}

-- A lender with an extension wallet registers a lien of three tenge on the parcel KZ1.
abbrev step : LienStep
step = record {
  error = none;
  success = false;
  submitting = false;
  toasts = [];
  tx = initial;
  liens = record { data' = []; loading = false; error = none };
}

abbrev lost : Client Encumbrance
lost = record {
  base = text "https://api";
  key = none;
  fetch = λ request. throws (foreign 0);
  error_of = λ body. none;
}

lien-built :
    (ix : Instruction) × (lien_instruction sample lender kz1 (whole 3) (text "seal") ≡ ok ix)
unfolding lien_instruction register_instruction big_int
lien-built = form-built

lien-sent :
    (send_lien silent signs sample (some lender) kz1 (whole 3) (text "seal") step.tx).1 ≡ none
unfolding send_lien send_built sign_and_send settle failure
lien-sent = rw (lien-built.1) refl

lien-shown :
    (handle_submit silent as_it_is signs sample lost
      (some lender)
      kz1
      (whole 3)
      (text "seal")
      (text "{}")
      step).success
    ≡ true
unfolding handle_submit is_positive send_lien send_built finish sign_and_send settle failure
lien-shown = rw (lien-built.1) refl

handle_submit-Signed_example :
    (is_positive (whole 3) ≡ true)
    × Signed signs lender
        (lien_instruction sample lender kz1 (whole 3) (text "seal"))
        (handle_submit silent as_it_is signs sample lost
          (some lender)
          kz1
          (whole 3)
          (text "seal")
          (text "{}")
          step).tx
handle_submit-Signed_example =
    handle_submit-Signed silent as_it_is signs lost (text "{}") sample lender kz1 (whole 3)
      (text "seal") step refl lien-shown

three_positive : is_positive (whole 3) ≡ true
unfolding is_positive
three_positive = refl

lost-post : post lost (text "/api/v1/liens") (some (text "{}")) ≡ throws (foreign 0)
unfolding post request
lost-post = refl

handle_submit-unrecorded_example :
    let s' =
      handle_submit silent as_it_is signs sample lost
        (some lender)
        kz1
        (whole 3)
        (text "seal")
        (text "{}")
        step in
    (s'.success ≡ true)
    × (s'.error ≡ none)
    × (s'.liens.data' ≡ [])
    × (s'.liens.error ≡ some (message_or (silent (foreign 0)) failed_message))
handle_submit-unrecorded_example =
    handle_submit-unrecorded silent as_it_is signs lost (text "{}") sample (some lender) kz1
      (whole 3) (text "seal") step (foreign 0) three_positive lien-sent lost-post

-- A wallet and a cluster that run one instruction against the accounts with the parcel KZ1.
abbrev reply_of : Attempt Store → Reply
reply_of (returns s) = fulfilled (text "5sig")
reply_of (fails f) = rejected (string (text "refused"))

abbrev cluster : List Instruction → Address → Reply
cluster [] payer = fulfilled (text "5sig")
cluster (ix ∷ instructions) payer = reply_of (execute_lien sample to_kz1 now with_parcel ix)

reply_of-returns :
    (m : Attempt Store) (signature : Text)
    → reply_of m ≡ fulfilled signature
    → (s : Store) × (m ≡ returns s)
reply_of-returns (returns s) signature e = (s, refl)
reply_of-returns (fails f) signature e = cc

abbrev Accepted : Type 0
Accepted =
    (ix : Instruction) × (lien_instruction sample lender kz1 (whole 3) (text "seal") ≡ ok ix)
    × ((s : Store) × (execute_lien sample to_kz1 now with_parcel ix ≡ returns s))

lien-accepted : Accepted
unfolding sample
lien-accepted =
    let (cert, hashed, size) = notary_cert_hash-total sample (text "seal") in
    let ((ix, built, runs), _) =
      execute_lien-build sample lender kz1_pda lien_pda index_pda 255 255 kz1_pda lender kz1_pda_key
        lender_key lien_at index_at to_kz1 now with_parcel kz1 3 (zeros 32) cert kz1-short refl
        size in
    let (s, e) = registered_three cert in
    (
      ix,
      lien_instruction_lem sample lender kz1_pda 255 kz1 3 (text "seal") cert kz1-derived hashed
          ∙ built,
      (s, runs ∙ e),
    )

pledged-shown :
    (handle_submit silent as_it_is cluster sample lost
      (some lender)
      kz1
      (whole 3)
      (text "seal")
      (text "{}")
      step).success
    ≡ true
unfolding handle_submit is_positive send_lien send_built finish sign_and_send settle failure
pledged-shown = rw (lien-accepted.1, lien-accepted.2.1) refl

handle_submit-pledged_example :
    (s' : Store) × (ix : Instruction) × (cert : Bytes) × (p : ParcelConfig) × (execute_lien sample
        to_kz1 now with_parcel ix
      ≡ returns s')
    × (notary_cert_hash sample (text "seal") ≡ ok cert)
    × (with_parcel.parcels kz1_pda ≡ some p)
    × (p.kyc_verified ≡ true)
    × (with_parcel.liens kz1_pda lender ≡ none)
    × (s'.liens kz1_pda lender
        ≡ some (new_lien p now 255 kz1_pda lender (3 % 2 ^ 64) (zeros 32) cert))
handle_submit-pledged_example =
    handle_submit-pledged sample lender kz1_pda lien_pda index_pda 255 255 255 kz1_pda lender
      kz1_pda_key lender_key lien_at index_at to_kz1 now with_parcel silent as_it_is cluster lost
      (text "{}") kz1 3 (text "seal") step kz1-derived kz1-short
      (λ ix signature e.
        reply_of-returns (execute_lien sample to_kz1 now with_parcel ix) signature e)
      refl pledged-shown
