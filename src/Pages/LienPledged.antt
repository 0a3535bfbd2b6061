-- ===== src/Pages/LienPledged.antt =====
-- RegisterLienStep.tsx, the builder and lien_registry together: what success of the step means for
-- the accounts.
use terra_ledger.Base.{
  ℕ, ◌^◌, ◌%◌, ◌<◌, true, false, ◌≡◌, refl, sym, ap, ◌∙◌, Outcome, ok, Option, none, some, List, [],
  ◌∷◌, length, Thrown, Text,
}
use terra_ledger.Bytes.{Bytes, zeros}
use terra_ledger.Platform.{Kit, Address}
use terra_ledger.Program.{Instruction, get_parcel_pda}
use terra_ledger.Program.Lien.{build_register_encumbrance_instruction}
use terra_ledger.Accounts.Layout.{ParcelConfig}
use terra_ledger.SignAndSend.{Reply, fulfilled}
use terra_ledger.Api.{Client}
use terra_ledger.Hooks.Liens.{Encumbrance}
use terra_ledger.LienPage.{notary_cert_hash}
use terra_ledger.LienPage.Handlers.{notary_cert_hash-total}
use terra_ledger.Chain.{Store, Clock, returns}
use terra_ledger.Chain.Lien.{new_lien, index_or_new, name_index, count_lien}
use terra_ledger.Chain.Accepts.{register_encumbrance-returns}
use terra_ledger.Chain.Execute.{encumbrance_at, lien_index_at, execute_lien}
use terra_ledger.Chain.Client.{execute_lien-build}
use terra_ledger.Chain.Pledges.{pledged_lien}
use terra_ledger.Pages.LienStep.{whole, LienStep, lien_instruction, big_int, handle_submit}
use terra_ledger.Pages.LienShown.{handle_submit-Signed}

ok_inj : {A : Type 0} (a b : A) → ◌≡◌ {A = Outcome A} (ok a) (ok b) → a ≡ b
ok_inj a b e = cc

-- The instruction of the step, for the parcel at the address of its number.
pub lien_instruction_lem :
    (kit : Kit) (lender parcel : Address) (b0 : ℕ) (cadastral : Text) (n : ℕ) (notary_hash : Text)
    (cert : Bytes)
    → get_parcel_pda kit cadastral ≡ ok (parcel, b0)
    → notary_cert_hash kit notary_hash ≡ ok cert
    → lien_instruction kit lender cadastral (whole n) notary_hash
      ≡ build_register_encumbrance_instruction kit lender parcel cadastral n (zeros 32) cert
unfolding lien_instruction big_int
lien_instruction_lem kit lender parcel b0 cadastral n notary_hash cert found hashed =
    rw (found, hashed) refl

module _ (kit : Kit) (lender parcel encumbrance_pda lien_index_pda : Address) (b0 b1 b2 : ℕ)
    (key who : Bytes) (parcel_key : kit.address_encode parcel ≡ ok key)
    (lender_key : kit.address_encode lender ≡ ok who)
    (derived : encumbrance_at kit key who ≡ ok (encumbrance_pda, b1))
    (indexed : lien_index_at kit key ≡ ok (lien_index_pda, b2)) (pda : Bytes → Bytes)
    (clock : Clock) (s : Store) where
  -- Where the parcel's and the lender's addresses encode and those of the parcel, its encumbrance and
  -- its index derive, the number's UTF-8 is shorter than 2 ^ 32 bytes, and `send` gives a signature
  -- only for an instruction that lien_registry accepts: success of RegisterLienStep for a whole amount
  -- means that the program accepted an instruction which leaves a lien of the lender on the parcel,
  -- where there was none, with the amount modulo 2 ^ 64, and that the parcel is verified.
  pub handle_submit-pledged :
      (message : Thrown → Option Text) (encode : Text → Text)
      (send : List Instruction → Address → Reply) (client : Client Encumbrance) (payload : Text)
      (cadastral : Text) (n : ℕ) (notary_hash : Text) (step : LienStep)
      → get_parcel_pda kit cadastral ≡ ok (parcel, b0)
      → length (kit.utf8_encode cadastral) < 2 ^ 32
      → ((ix : Instruction) (signature : Text)
          → send (ix ∷ []) lender ≡ fulfilled signature
          → (s' : Store) × (execute_lien kit pda clock s ix ≡ returns s'))
      → step.success ≡ false
      → (handle_submit message encode send kit client
          (some lender)
          cadastral
          (whole n)
          notary_hash
          payload
          step).success
        ≡ true
      → (s' : Store) × (ix : Instruction) × (cert : Bytes) × (p : ParcelConfig) × (execute_lien kit
            pda clock s ix
          ≡ returns s')
        × (notary_cert_hash kit notary_hash ≡ ok cert)
        × (s.parcels key ≡ some p)
        × (p.kyc_verified ≡ true)
        × (s.liens key who ≡ none)
        × (s'.liens key who ≡ some (new_lien p clock b1 key who (n % 2 ^ 64) (zeros 32) cert))
  handle_submit-pledged message encode send client payload cadastral n notary_hash step found short
        confirmed before after =
      let (_, (ix, signature, built, sent, _)) =
        handle_submit-Signed message encode send client payload kit lender cadastral (whole n)
          notary_hash step before after in
      let (cert, hashed, size) = notary_cert_hash-total kit notary_hash in
      let ((ix', built', runs), _) =
        execute_lien-build kit lender parcel encumbrance_pda lien_index_pda b1 b2 key who parcel_key
          lender_key derived indexed pda clock s cadastral n (zeros 32) cert short refl size in
      let same : ix' ≡ ix = ok_inj ix' ix (
        sym built'
        ∙ sym (lien_instruction_lem kit lender parcel b0 cadastral n notary_hash cert found hashed)
        ∙ built) in
      let (s', ran) = confirmed ix signature sent in
      let (fresh, (p, there, _, _, verified, _, _, e)) =
        register_encumbrance-returns pda clock s key who b1 b2 (kit.utf8_encode cadastral)
          (n % 2 ^ 64) (zeros 32) cert
          (sym runs ∙ ap (λ i. execute_lien kit pda clock s i) same ∙ ran) in
      let lien = new_lien p clock b1 key who (n % 2 ^ 64) (zeros 32) cert in
      let index = count_lien (name_index (index_or_new (s.indices key)) key b2) in
      (
        s',
        ix,
        cert,
        p,
        ran,
        hashed,
        there,
        verified,
        fresh,
        ap (λ (x : Store). x.liens key who) (sym e) ∙ pledged_lien s key who lien index,
      )
