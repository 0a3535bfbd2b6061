-- ===== src/Program/Args/Register.antt =====
-- `buildRegisterParcelInstruction` against the arguments of `register_parcel`.
use terra_ledger.Base.{ℕ, ◌%◌, ◌^◌, ◌<◌, ◌≡◌, refl, [], ◌∷◌, ◌++◌}
use terra_ledger.Base.{length, ok, Text, some}
use terra_ledger.Bytes.{Bytes, le_bytes}
use terra_ledger.Platform.{Address, Kit}
use terra_ledger.Program.{
  register_parcel_discriminator, terra_token_program_id, system_program, Instruction, readonly,
  writable, writable_signer, get_parcel_pda, build_register_parcel_instruction,
}
use terra_ledger.Program.Concat.{concat_bytes-flatten}
use terra_ledger.Program.Encode.{borsh_string, encode_string_bytes, encode_u32_le_bytes}
use terra_ledger.Program.Readers.{take_bytes-append, take_uint-append, take_string-append}
use terra_ledger.Program.Wire.{read_terra_call, read_register_parcel, register_parcel}

read_register_parcel-args :
    (cadastral egiss rest : Bytes) (area class : ℕ)
    → length cadastral < 2 ^ 32
    → length egiss ≡ 32
    → read_register_parcel
        (borsh_string cadastral ++ (le_bytes 4 area ++ (le_bytes 1 class ++ (egiss ++ rest))))
      ≡ some (register_parcel cadastral (area % 2 ^ 32) (class % 256) egiss)
unfolding read_register_parcel
read_register_parcel-args cadastral egiss rest area class h k = rw (
  take_string-append cadastral (le_bytes 4 area ++ (le_bytes 1 class ++ (egiss ++ rest))) h,
  take_uint-append 4 area (le_bytes 1 class ++ (egiss ++ rest)),
  take_uint-append 1 class (egiss ++ rest),
  take_bytes-append 32 egiss rest k,
)

module _ (kit : Kit) (cadastral : Text) (pda : Address) (bump : ℕ)
    (derived : get_parcel_pda kit cadastral ≡ ok (pda, bump))
    (short : length (kit.utf8_encode cadastral) < 2 ^ 32) where
  -- Where the parcel's address derives from the cadastral number, whose UTF-8 is shorter than 2 ^ 32
  -- bytes, and the EGISS hash has 32 bytes, `buildRegisterParcelInstruction` returns an instruction
  -- whose data `terra_token` reads as `register_parcel` with the same cadastral number and hash, the
  -- area modulo 2 ^ 32 and the land class modulo 256.
  pub read-build_register_parcel :
      (owner : Address) (area class : ℕ) (egiss : Bytes)
      → length egiss ≡ 32
      → (ix : Instruction) × (build_register_parcel_instruction kit owner cadastral area class egiss
          ≡ ok ix)
        × (read_terra_call ix.data'
            ≡ some
                (register_parcel (kit.utf8_encode cadastral) (area % 2 ^ 32) (class % 256) egiss))
  unfolding build_register_parcel_instruction read_terra_call
  read-build_register_parcel owner area class egiss k =
      let args : Bytes =
        borsh_string (kit.utf8_encode cadastral)
        ++ (le_bytes 4 area ++ (((class % 256) ∷ []) ++ (egiss ++ []))) in
      (
        record {
          program_address = terra_token_program_id;
          accounts =
              record { address = pda; role = writable }
              ∷ record { address = owner; role = writable_signer }
              ∷ record { address = system_program; role = readonly }
              ∷ [];
          data' = register_parcel_discriminator ++ args;
        },
        rw (
          derived,
          encode_string_bytes kit cadastral,
          encode_u32_le_bytes area,
          concat_bytes-flatten _,
        ),
        rw (take_bytes-append 8 register_parcel_discriminator args refl) (
            unfold le_bytes in
            read_register_parcel-args (kit.utf8_encode cadastral) egiss [] area class short k),
      )
