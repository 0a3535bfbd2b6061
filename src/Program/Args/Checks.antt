-- ===== src/Program/Args/Checks.antt =====
-- `buildSeasonalCheckInstruction` and `buildVerifyParcelInstruction` against the arguments of
-- `seasonal_check` and `verify_parcel`.
use terra_ledger.Base.{ℕ, ◌^◌, ◌<◌, ◌≡◌, refl, [], ◌∷◌, ◌++◌, length, ok, Text, some}
use terra_ledger.Bytes.{Bytes}
use terra_ledger.Platform.{Address, Kit}
use terra_ledger.Program.{
  seasonal_check_discriminator, verify_parcel_discriminator, terra_token_program_id, Instruction,
  readonly, writable, readonly_signer, get_parcel_pda, build_seasonal_check_instruction,
  build_verify_parcel_instruction,
}
use terra_ledger.Program.Concat.{concat_bytes-flatten}
use terra_ledger.Program.Encode.{borsh_string, encode_string_bytes}
use terra_ledger.Program.Readers.{take_bytes-append, take_string-append}
use terra_ledger.Program.Wire.{
  read_terra_call, read_seasonal_check, read_verify_parcel, seasonal_check, verify_parcel,
}

module _ (kit : Kit) (cadastral : Text) (pda : Address) (bump : ℕ)
    (derived : get_parcel_pda kit cadastral ≡ ok (pda, bump))
    (short : length (kit.utf8_encode cadastral) < 2 ^ 32) where
  abbrev args : Bytes
  args = borsh_string (kit.utf8_encode cadastral) ++ []

  -- Where the parcel's address derives from the cadastral number, whose UTF-8 is shorter than 2 ^ 32
  -- bytes, `buildSeasonalCheckInstruction` returns an instruction whose data `terra_token` reads as
  -- `seasonal_check` with the same cadastral number.
  pub read-build_seasonal_check :
      (keeper : Address)
      → (ix : Instruction) × (build_seasonal_check_instruction kit keeper cadastral ≡ ok ix)
        × (read_terra_call ix.data' ≡ some (seasonal_check (kit.utf8_encode cadastral)))
  unfolding build_seasonal_check_instruction read_terra_call read_seasonal_check
  read-build_seasonal_check keeper = (
    record {
      program_address = terra_token_program_id;
      accounts =
          record { address = pda; role = writable }
          ∷ record { address = keeper; role = readonly_signer }
          ∷ [];
      data' = seasonal_check_discriminator ++ args;
    },
    rw (derived, encode_string_bytes kit cadastral, concat_bytes-flatten _),
    rw (take_bytes-append 8 seasonal_check_discriminator args refl)
        (rw (take_string-append (kit.utf8_encode cadastral) [] short)),
  )

  -- Where the parcel's address derives from the cadastral number, whose UTF-8 is shorter than 2 ^ 32
  -- bytes, `buildVerifyParcelInstruction` returns an instruction whose data `terra_token` reads as
  -- `verify_parcel` with the same cadastral number.
  pub read-build_verify_parcel :
      (ix : Instruction) × (build_verify_parcel_instruction kit cadastral ≡ ok ix)
      × (read_terra_call ix.data' ≡ some (verify_parcel (kit.utf8_encode cadastral)))
  unfolding build_verify_parcel_instruction read_terra_call read_verify_parcel
  read-build_verify_parcel = (
    record {
      program_address = terra_token_program_id;
      accounts = record { address = pda; role = readonly } ∷ [];
      data' = verify_parcel_discriminator ++ args;
    },
    rw (derived, encode_string_bytes kit cadastral, concat_bytes-flatten _),
    rw (take_bytes-append 8 verify_parcel_discriminator args refl)
        (rw (take_string-append (kit.utf8_encode cadastral) [] short)),
  )
