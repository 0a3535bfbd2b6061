-- ===== src/Sdk/Addresses.antt =====
-- The constants and the derived addresses of sdk/src/program.ts.
use terra_ledger.Base.{ℕ, [], ◌∷◌, Outcome, ◌>>=◌, Text, text}
use terra_ledger.Bytes.{Bytes}
use terra_ledger.Platform.{Address, text_seed, bytes_seed, Kit}

abbrev pub terra_token_program_id : Address
terra_token_program_id = text "2eAqpJ7yjso7FDA4sDQLJQioNCRuoYSUeha2Y88NRRMX"

abbrev pub lien_registry_program_id : Address
lien_registry_program_id = text "3qYHSTPeRLRDfWmtzEhiaHpT2kchgW8GqaYcwmDbKnq4"

abbrev pub system_program : Address
system_program = text "11111111111111111111111111111111"

abbrev pub register_parcel_discriminator : Bytes
register_parcel_discriminator = 170 ∷ 232 ∷ 221 ∷ 44 ∷ 109 ∷ 149 ∷ 104 ∷ 207 ∷ []

abbrev pub mint_certificate_discriminator : Bytes
mint_certificate_discriminator = 53 ∷ 2 ∷ 104 ∷ 84 ∷ 51 ∷ 197 ∷ 179 ∷ 10 ∷ []

abbrev pub seasonal_check_discriminator : Bytes
seasonal_check_discriminator = 161 ∷ 143 ∷ 168 ∷ 146 ∷ 218 ∷ 14 ∷ 59 ∷ 80 ∷ []

abbrev pub verify_parcel_discriminator : Bytes
verify_parcel_discriminator = 45 ∷ 47 ∷ 217 ∷ 191 ∷ 140 ∷ 31 ∷ 95 ∷ 178 ∷ []

abbrev pub register_encumbrance_discriminator : Bytes
register_encumbrance_discriminator = 5 ∷ 82 ∷ 66 ∷ 155 ∷ 31 ∷ 178 ∷ 204 ∷ 252 ∷ []

abbrev pub release_encumbrance_discriminator : Bytes
release_encumbrance_discriminator = 144 ∷ 232 ∷ 132 ∷ 141 ∷ 47 ∷ 237 ∷ 85 ∷ 194 ∷ []

module _ (kit : Kit) where
  unfoldable pub get_parcel_pda : Text → Outcome (Address × ℕ)
  get_parcel_pda cadastral_number =
      kit.find_pda terra_token_program_id
        (text_seed (text "parcel") ∷ bytes_seed (kit.utf8_encode cadastral_number) ∷ [])

  unfoldable pub get_encumbrance_pda : Address → Address → Outcome (Address × ℕ)
  get_encumbrance_pda parcel_pda lender = do
    parcel_bytes ← kit.address_encode parcel_pda
    lender_bytes ← kit.address_encode lender
    kit.find_pda lien_registry_program_id
        (text_seed (text "encumbrance") ∷ bytes_seed parcel_bytes ∷ bytes_seed lender_bytes ∷ [])

  unfoldable pub get_lien_index_pda : Address → Outcome (Address × ℕ)
  get_lien_index_pda parcel_pda = do
    parcel_bytes ← kit.address_encode parcel_pda
    kit.find_pda lien_registry_program_id
        (text_seed (text "lien_index") ∷ bytes_seed parcel_bytes ∷ [])
