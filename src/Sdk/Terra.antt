-- ===== src/Sdk/Terra.antt =====
-- The terra_token builders of sdk/src/program.ts (Program.Risk has the one for
-- `update_risk_assessment`). A builder is async only because it derives an address.
use terra_ledger.Base.{ℕ, ◌%◌, [], ◌∷◌, Outcome, ok, ◌>>=◌, Text}
use terra_ledger.Bytes.{Bytes}
use terra_ledger.Platform.{Address, Kit}
use terra_ledger.Program.{Instruction, readonly, writable, readonly_signer, writable_signer}
use terra_ledger.Sdk.Addresses.{
  terra_token_program_id, system_program, register_parcel_discriminator,
  mint_certificate_discriminator, seasonal_check_discriminator, verify_parcel_discriminator,
  get_parcel_pda,
}
use terra_ledger.Sdk.Encoders.{encode_u32_le, encode_u16_le, encode_string, concat_bytes}

module _ (kit : Kit) where
  unfoldable pub build_register_parcel_instruction :
      Address → Text → ℕ → ℕ → Bytes → Outcome Instruction
  build_register_parcel_instruction owner cadastral_number area_ha land_class egiss_snapshot_hash =
      do
        (parcel_pda, _) ← get_parcel_pda kit cadastral_number
        cadastral ← encode_string kit cadastral_number
        area ← encode_u32_le area_ha
        bytes ← concat_bytes (
            register_parcel_discriminator
            ∷ cadastral
            ∷ area
            ∷ ((land_class % 256) ∷ [])
            ∷ egiss_snapshot_hash
            ∷ [])
        ok (record {
          program_address = terra_token_program_id;
          accounts =
              record { address = parcel_pda; role = writable }
              ∷ record { address = owner; role = writable_signer }
              ∷ record { address = system_program; role = readonly }
              ∷ [];
          data' = bytes;
        })

  unfoldable pub build_mint_certificate_instruction :
      Address → Text → Text → ℕ → Outcome Instruction
  build_mint_certificate_instruction mint_authority cadastral_number season ndvi_score = do
    (parcel_pda, _) ← get_parcel_pda kit cadastral_number
    cadastral ← encode_string kit cadastral_number
    season_bytes ← encode_string kit season
    score ← encode_u16_le ndvi_score
    bytes ← concat_bytes (mint_certificate_discriminator ∷ cadastral ∷ season_bytes ∷ score ∷ [])
    ok (record {
      program_address = terra_token_program_id;
      accounts =
          record { address = parcel_pda; role = writable }
          ∷ record { address = mint_authority; role = readonly_signer }
          ∷ [];
      data' = bytes;
    })

  unfoldable pub build_seasonal_check_instruction : Address → Text → Outcome Instruction
  build_seasonal_check_instruction keeper cadastral_number = do
    (parcel_pda, _) ← get_parcel_pda kit cadastral_number
    cadastral ← encode_string kit cadastral_number
    bytes ← concat_bytes (seasonal_check_discriminator ∷ cadastral ∷ [])
    ok (record {
      program_address = terra_token_program_id;
      accounts =
          record { address = parcel_pda; role = writable }
          ∷ record { address = keeper; role = readonly_signer }
          ∷ [];
      data' = bytes;
    })

  unfoldable pub build_verify_parcel_instruction : Text → Outcome Instruction
  build_verify_parcel_instruction cadastral_number = do
    (parcel_pda, _) ← get_parcel_pda kit cadastral_number
    cadastral ← encode_string kit cadastral_number
    bytes ← concat_bytes (verify_parcel_discriminator ∷ cadastral ∷ [])
    ok (record {
      program_address = terra_token_program_id;
      accounts = record { address = parcel_pda; role = readonly } ∷ [];
      data' = bytes;
    })
