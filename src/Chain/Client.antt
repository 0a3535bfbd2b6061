-- ===== src/Chain/Client.antt =====
-- The client of web/src/solana/program.ts and lien_registry together: what the instructions that it
-- builds do to the accounts.
use terra_ledger.Base.{ℕ, ◌≡◌, refl, ◌%◌, ◌^◌, ◌<◌, length}
use terra_ledger.Base.{ok, Text}
use terra_ledger.Bytes.{Bytes}
use terra_ledger.Bytes.Equality.{bytes_eq_refl}
use terra_ledger.Platform.{Address, Kit}
use terra_ledger.Program.{Instruction, get_encumbrance_pda, get_lien_index_pda}
use terra_ledger.Program.Lien.{
  build_register_encumbrance_instruction, build_release_encumbrance_instruction,
}
use terra_ledger.Program.Transaction.{is_signer_role, is_writable_role}
use terra_ledger.Program.Args.Encumbrance.{
  registration, build_register_encumbrance_lem, read-registration, release,
  build_release_encumbrance_lem, read-release,
}
use terra_ledger.Chain.{Store, Clock}
use terra_ledger.Chain.Lien
use terra_ledger.Chain.Execute.{
  encumbrance_at, lien_index_at, run_lien_call, run_register, run_release, execute_lien,
}

module _ (kit : Kit) (lender parcel encumbrance_pda lien_index_pda : Address) (b1 b2 : ℕ)
    (key who : Bytes) (parcel_key : kit.address_encode parcel ≡ ok key)
    (lender_key : kit.address_encode lender ≡ ok who)
    (derived : encumbrance_at kit key who ≡ ok (encumbrance_pda, b1))
    (indexed : lien_index_at kit key ≡ ok (lien_index_pda, b2)) where
  pub get_encumbrance_pda-at : get_encumbrance_pda kit parcel lender ≡ ok (encumbrance_pda, b1)
  unfolding get_encumbrance_pda encumbrance_at
  get_encumbrance_pda-at = rw (parcel_key, lender_key) derived

  pub get_lien_index_pda-at : get_lien_index_pda kit parcel ≡ ok (lien_index_pda, b2)
  unfolding get_lien_index_pda lien_index_at
  get_lien_index_pda-at = rw parcel_key indexed

  module _ (pda : Bytes → Bytes) (clock : Clock) (s : Store) where
    -- Where the parcel's and the lender's addresses encode to `key` and `who`, the addresses of
    -- encumbrance and lien index derive from them, the UTF-8 of the cadastral number is shorter than
    -- 2 ^ 32 bytes and the hashes have 32 bytes: an instruction that
    -- `buildRegisterEncumbranceInstruction` returns makes lien_registry register the lien of `who` on
    -- `key`, with the same number and hashes and the amount modulo 2 ^ 64, and one that
    -- `buildReleaseEncumbranceInstruction` returns makes it release that lien.
    pub execute_lien-build :
        (cadastral : Text) (amount : ℕ) (sig cert : Bytes)
        → length (kit.utf8_encode cadastral) < 2 ^ 32
        → length sig ≡ 32
        → length cert ≡ 32
        → ((ix : Instruction) × (build_register_encumbrance_instruction kit lender parcel cadastral
                amount sig cert
              ≡ ok ix)
            × (execute_lien kit pda clock s ix
                ≡ Lien.register_encumbrance pda clock s key who b1 b2
                    (kit.utf8_encode cadastral)
                    (amount % 2 ^ 64)
                    sig
                    cert))
          × ((ix : Instruction) × (build_release_encumbrance_instruction kit lender parcel ≡ ok ix)
              × (execute_lien kit pda clock s ix ≡ Lien.release_encumbrance pda clock s key who))
    unfolding execute_lien run_lien_call run_register run_release is_signer_role is_writable_role
    execute_lien-build cadastral amount sig cert h k l =
        let d = get_encumbrance_pda-at in
        let i = get_lien_index_pda-at in
        let reads =
          read-registration kit lender parcel encumbrance_pda lien_index_pda b1 b2 d i cadastral
            amount sig cert h k l in
        (
          (
            registration kit lender parcel encumbrance_pda lien_index_pda b1 b2 d i cadastral amount
                sig cert,
            build_register_encumbrance_lem kit lender parcel encumbrance_pda lien_index_pda b1 b2 d
                i cadastral amount sig cert,
            rw
                (
                  reads,
                  parcel_key,
                  lender_key,
                  derived,
                  bytes_eq_refl encumbrance_pda,
                  indexed,
                  bytes_eq_refl lien_index_pda,
                )
                refl,
          ),
          (
            release kit lender parcel encumbrance_pda lien_index_pda b1 b2 d i,
            build_release_encumbrance_lem kit lender parcel encumbrance_pda lien_index_pda b1 b2 d
                i,
            rw
                (
                  read-release kit lender parcel encumbrance_pda lien_index_pda b1 b2 d i,
                  parcel_key,
                  lender_key,
                  derived,
                  bytes_eq_refl encumbrance_pda,
                  indexed,
                  bytes_eq_refl lien_index_pda,
                )
                refl,
          ),
        )
