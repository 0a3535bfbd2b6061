-- ===== src/Program/Lien.antt =====
-- The lien_registry builders of web/src/solana/program.ts.
use terra_ledger.Base.{ℕ, [], ◌∷◌, Outcome, ok, ◌>>=◌, Text}
use terra_ledger.Bytes.{Bytes}
use terra_ledger.Platform.{Address, Kit}
use terra_ledger.Program.{
  terra_token_program_id, lien_registry_program_id, system_program,
  register_encumbrance_discriminator, release_encumbrance_discriminator, Instruction, readonly,
  writable, writable_signer, encode_u64_le, concat_bytes, encode_string, get_encumbrance_pda,
  get_lien_index_pda,
}

module _ (kit : Kit) where
  unfoldable pub build_register_encumbrance_instruction :
      Address → Address → Text → ℕ → Bytes → Bytes → Outcome Instruction
  build_register_encumbrance_instruction lender parcel_pda cadastral_number amount notary_sig_hash
        notary_cert_hash =
      do
        (encumbrance_pda, _) ← get_encumbrance_pda kit parcel_pda lender
        (lien_index_pda, _) ← get_lien_index_pda kit parcel_pda
        cadastral ← encode_string kit cadastral_number
        amount_bytes ← encode_u64_le amount
        bytes ← concat_bytes (
            register_encumbrance_discriminator ∷ cadastral ∷ amount_bytes ∷ notary_sig_hash
            ∷ notary_cert_hash ∷ [])
        ok (record {
          program_address = lien_registry_program_id;
          accounts =
              record { address = encumbrance_pda; role = writable }
              ∷ record { address = lien_index_pda; role = writable }
              ∷ record { address = parcel_pda; role = readonly }
              ∷ record { address = lender; role = writable_signer }
              ∷ record { address = system_program; role = readonly }
              ∷ record { address = terra_token_program_id; role = readonly }
              ∷ [];
          data' = bytes;
        })

  unfoldable pub build_release_encumbrance_instruction : Address → Address → Outcome Instruction
  build_release_encumbrance_instruction lender parcel_pda = do
    (encumbrance_pda, _) ← get_encumbrance_pda kit parcel_pda lender
    (lien_index_pda, _) ← get_lien_index_pda kit parcel_pda
    bytes ← concat_bytes (release_encumbrance_discriminator ∷ [])
    ok (record {
      program_address = lien_registry_program_id;
      accounts =
          record { address = encumbrance_pda; role = writable }
          ∷ record { address = lien_index_pda; role = writable }
          ∷ record { address = parcel_pda; role = readonly }
          ∷ record { address = lender; role = writable_signer }
          ∷ [];
      data' = bytes;
    })
