-- ===== src/Program/Args/Mint.antt =====
-- `buildMintCertificateInstruction` against the arguments of `mint_certificate`.
use terra_ledger.Base.{ℕ, ◌^◌, ◌<◌, ◌≡◌, refl, [], ◌∷◌, ◌++◌, length, ok, Text, none}
use terra_ledger.Bytes.{Bytes, le_bytes}
use terra_ledger.Platform.{Address, Kit}
use terra_ledger.Program.{
  mint_certificate_discriminator, terra_token_program_id, Instruction, writable, readonly_signer,
  get_parcel_pda, build_mint_certificate_instruction,
}
use terra_ledger.Program.Concat.{concat_bytes-flatten}
use terra_ledger.Program.Encode.{borsh_string, encode_string_bytes, encode_u16_le_bytes}
use terra_ledger.Program.Readers.{
  take_bytes-append, take_uint-append, take_string-append, take_string-nil,
}
use terra_ledger.Program.Wire.{read_terra_call, read_mint_certificate}

-- Behind the score nothing is left for `crop_type`.
read_mint_certificate_short :
    (cadastral season : Bytes) (score : ℕ)
    → length cadastral < 2 ^ 32
    → length season < 2 ^ 32
    → read_mint_certificate
        (borsh_string cadastral ++ (borsh_string season ++ (le_bytes 2 score ++ [])))
      ≡ none
unfolding read_mint_certificate
read_mint_certificate_short cadastral season score h k = rw (
  take_string-append cadastral (borsh_string season ++ (le_bytes 2 score ++ [])) h,
  take_string-append season (le_bytes 2 score ++ []) k,
  take_uint-append 2 score [],
  take_string-nil,
)

module _ (kit : Kit) (cadastral : Text) (pda : Address) (bump : ℕ)
    (derived : get_parcel_pda kit cadastral ≡ ok (pda, bump))
    (short : length (kit.utf8_encode cadastral) < 2 ^ 32) where
  -- Where the parcel's address derives from the cadastral number, and the UTF-8 of both texts is
  -- shorter than 2 ^ 32 bytes, `buildMintCertificateInstruction` returns an instruction, but its data
  -- are no call that `terra_token` can read: `mint_certificate` takes a crop type as well.
  pub read-build_mint_certificate :
      (mint_authority : Address) (season : Text) (ndvi_score : ℕ)
      → length (kit.utf8_encode season) < 2 ^ 32
      → (ix : Instruction) × (build_mint_certificate_instruction kit mint_authority cadastral season
            ndvi_score
          ≡ ok ix)
        × (read_terra_call ix.data' ≡ none)
  unfolding build_mint_certificate_instruction read_terra_call
  read-build_mint_certificate mint_authority season ndvi_score k =
      let args : Bytes =
        borsh_string (kit.utf8_encode cadastral)
        ++ (borsh_string (kit.utf8_encode season) ++ (le_bytes 2 ndvi_score ++ [])) in
      (
        record {
          program_address = terra_token_program_id;
          accounts =
              record { address = pda; role = writable }
              ∷ record { address = mint_authority; role = readonly_signer }
              ∷ [];
          data' = mint_certificate_discriminator ++ args;
        },
        rw (
          derived,
          encode_string_bytes kit cadastral,
          encode_string_bytes kit season,
          encode_u16_le_bytes ndvi_score,
          concat_bytes-flatten _,
        ),
        rw (take_bytes-append 8 mint_certificate_discriminator args refl) (
            read_mint_certificate_short (kit.utf8_encode cadastral) (kit.utf8_encode season)
              ndvi_score short k),
      )
