-- ===== src/Program/Args/Encumbrance.antt =====
-- `buildRegisterEncumbranceInstruction` and `buildReleaseEncumbranceInstruction` against the
-- arguments of lien_registry's handlers.
use terra_ledger.Base.{ℕ, ◌%◌, ◌^◌, ◌<◌, ◌≡◌, refl, [], ◌∷◌, ◌++◌, length, ok, Text, some}
use terra_ledger.Bytes.{Bytes, le_bytes}
use terra_ledger.Platform.{Address, Kit}
use terra_ledger.Program.{
  register_encumbrance_discriminator, release_encumbrance_discriminator, terra_token_program_id,
  lien_registry_program_id, system_program, Instruction, readonly, writable, writable_signer,
  get_encumbrance_pda, get_lien_index_pda,
}
use terra_ledger.Program.Lien.{
  build_register_encumbrance_instruction, build_release_encumbrance_instruction,
}
use terra_ledger.Program.Concat.{concat_bytes-flatten}
use terra_ledger.Program.Encode.{borsh_string, encode_string_bytes, encode_u64_le_bytes}
use terra_ledger.Program.Readers.{take_bytes-append, take_uint-append, take_string-append}
use terra_ledger.Program.Wire.{
  read_lien_call, read_register_encumbrance, register_encumbrance, release_encumbrance,
}

read_register_encumbrance-args :
    (cadastral sig cert : Bytes) (amount : ℕ)
    → length cadastral < 2 ^ 32
    → length sig ≡ 32
    → length cert ≡ 32
    → read_register_encumbrance
        (borsh_string cadastral ++ (le_bytes 8 amount ++ (sig ++ (cert ++ []))))
      ≡ some (register_encumbrance cadastral (amount % 2 ^ 64) sig cert)
unfolding read_register_encumbrance
read_register_encumbrance-args cadastral sig cert amount h k l = rw (
  take_string-append cadastral (le_bytes 8 amount ++ (sig ++ (cert ++ []))) h,
  take_uint-append 8 amount (sig ++ (cert ++ [])),
  take_bytes-append 32 sig (cert ++ []) k,
  take_bytes-append 32 cert [] l,
)

module _ (kit : Kit) (lender parcel_pda encumbrance_pda lien_index_pda : Address) (b1 b2 : ℕ)
    (derived : get_encumbrance_pda kit parcel_pda lender ≡ ok (encumbrance_pda, b1))
    (indexed : get_lien_index_pda kit parcel_pda ≡ ok (lien_index_pda, b2)) where
  abbrev pub registration : Text → ℕ → Bytes → Bytes → Instruction
  registration cadastral amount sig cert = record {
    program_address = lien_registry_program_id;
    accounts =
        record { address = encumbrance_pda; role = writable }
        ∷ record { address = lien_index_pda; role = writable }
        ∷ record { address = parcel_pda; role = readonly }
        ∷ record { address = lender; role = writable_signer }
        ∷ record { address = system_program; role = readonly }
        ∷ record { address = terra_token_program_id; role = readonly }
        ∷ [];
    data' =
        register_encumbrance_discriminator
        ++ (borsh_string (kit.utf8_encode cadastral)
            ++ (le_bytes 8 amount ++ (sig ++ (cert ++ []))));
  }

  pub build_register_encumbrance_lem :
      (cadastral : Text) (amount : ℕ) (sig cert : Bytes)
      → build_register_encumbrance_instruction kit lender parcel_pda cadastral amount sig cert
        ≡ ok (registration cadastral amount sig cert)
  unfolding build_register_encumbrance_instruction
  build_register_encumbrance_lem cadastral amount sig cert = rw (
    derived,
    indexed,
    encode_string_bytes kit cadastral,
    encode_u64_le_bytes amount,
    concat_bytes-flatten _,
  )

  pub read-registration :
      (cadastral : Text) (amount : ℕ) (sig cert : Bytes)
      → length (kit.utf8_encode cadastral) < 2 ^ 32
      → length sig ≡ 32
      → length cert ≡ 32
      → read_lien_call (registration cadastral amount sig cert).data'
        ≡ some (register_encumbrance (kit.utf8_encode cadastral) (amount % 2 ^ 64) sig cert)
  unfolding read_lien_call
  read-registration cadastral amount sig cert h k l =
      let args : Bytes =
        borsh_string (kit.utf8_encode cadastral) ++ (le_bytes 8 amount ++ (sig ++ (cert ++ []))) in
      rw (take_bytes-append 8 register_encumbrance_discriminator args refl)
        (read_register_encumbrance-args (kit.utf8_encode cadastral) sig cert amount h k l)

  -- Where the addresses of the encumbrance and of the lien index derive from the parcel and the
  -- lender, the UTF-8 of the cadastral number is shorter than 2 ^ 32 bytes and the two hashes have 32
  -- bytes, `buildRegisterEncumbranceInstruction` returns an instruction whose data `lien_registry`
  -- reads as `register_encumbrance` with the same cadastral number and hashes and the amount modulo
  -- 2 ^ 64.
  pub read-build_register_encumbrance :
      (cadastral : Text) (amount : ℕ) (sig cert : Bytes)
      → length (kit.utf8_encode cadastral) < 2 ^ 32
      → length sig ≡ 32
      → length cert ≡ 32
      → (ix : Instruction) × (build_register_encumbrance_instruction kit lender parcel_pda cadastral
            amount sig cert
          ≡ ok ix)
        × (read_lien_call ix.data'
            ≡ some (register_encumbrance (kit.utf8_encode cadastral) (amount % 2 ^ 64) sig cert))
  read-build_register_encumbrance cadastral amount sig cert h k l = (
    registration cadastral amount sig cert,
    build_register_encumbrance_lem cadastral amount sig cert,
    read-registration cadastral amount sig cert h k l,
  )

  abbrev pub release : Instruction
  release = record {
    program_address = lien_registry_program_id;
    accounts =
        record { address = encumbrance_pda; role = writable }
        ∷ record { address = lien_index_pda; role = writable }
        ∷ record { address = parcel_pda; role = readonly }
        ∷ record { address = lender; role = writable_signer }
        ∷ [];
    data' = release_encumbrance_discriminator ++ [];
  }

  pub build_release_encumbrance_lem :
      build_release_encumbrance_instruction kit lender parcel_pda ≡ ok release
  unfolding build_release_encumbrance_instruction
  build_release_encumbrance_lem = rw (derived, indexed, concat_bytes-flatten _)

  pub read-release : read_lien_call release.data' ≡ some release_encumbrance
  unfolding read_lien_call
  read-release = rw (take_bytes-append 8 release_encumbrance_discriminator [] refl) refl

  -- Where the same addresses derive, `buildReleaseEncumbranceInstruction` returns an instruction
  -- whose data `lien_registry` reads as `release_encumbrance`.
  pub read-build_release_encumbrance :
      (ix : Instruction) × (build_release_encumbrance_instruction kit lender parcel_pda ≡ ok ix)
      × (read_lien_call ix.data' ≡ some release_encumbrance)
  read-build_release_encumbrance = (release, build_release_encumbrance_lem, read-release)
