-- ===== src/Program/Roles.antt =====
-- The accounts that the builders of web/src/solana/program.ts and sdk/src/program.ts name against
-- those that the on-chain handlers ask for.
use terra_ledger.Base.{ℕ, ◌≡◌, refl}
use terra_ledger.Base.{ok, Text}
use terra_ledger.Bytes.{Bytes}
use terra_ledger.Platform.{Address, Kit}
use terra_ledger.Program.{
  terra_token_program_id, lien_registry_program_id, Instruction, build_register_parcel_instruction,
  build_mint_certificate_instruction, build_verify_parcel_instruction, get_parcel_pda,
  get_encumbrance_pda, get_lien_index_pda,
}
use terra_ledger.Program.Concat.{concat_bytes-flatten}
use terra_ledger.Program.Encode.{encode_string_bytes, encode_u32_le_bytes, encode_u16_le_bytes}
use terra_ledger.Program.Args.Risk.{risk_assessment_data_writes}
use terra_ledger.Program.Args.Encumbrance.{
  registration, build_register_encumbrance_lem, release, build_release_encumbrance_lem,
}
use terra_ledger.Chain.Execute.{parcel_at, encumbrance_at, lien_index_at}
use terra_ledger.Program.Lien.{
  build_register_encumbrance_instruction, build_release_encumbrance_instruction,
}
use terra_ledger.Program.Risk.{build_update_risk_assessment_instruction}
use terra_ledger.Program.Transaction.{is_signer_role, is_writable_role}
use terra_ledger.Program.Structs.{
  register_parcel_accounts, verify_parcel_accounts, mint_certificate_accounts,
  update_risk_assessment_accounts, register_encumbrance_accounts, release_encumbrance_accounts,
  Meets, Addresses,
}

module _ (kit : Kit) (lender parcel encumbrance lien_index : Address) (b0 b1 b2 : ℕ)
    (key who : Bytes) (parcel_key : kit.address_encode parcel ≡ ok key)
    (lender_key : kit.address_encode lender ≡ ok who) (cadastral : Text)
    (found : parcel_at kit (kit.utf8_encode cadastral) ≡ ok (parcel, b0))
    (derived : encumbrance_at kit key who ≡ ok (encumbrance, b1))
    (indexed : lien_index_at kit key ≡ ok (lien_index, b2)) where
  encumbrance_derived : get_encumbrance_pda kit parcel lender ≡ ok (encumbrance, b1)
  unfolding get_encumbrance_pda encumbrance_at
  encumbrance_derived = rw (parcel_key, lender_key) derived

  index_derived : get_lien_index_pda kit parcel ≡ ok (lien_index, b2)
  unfolding get_lien_index_pda lien_index_at
  index_derived = rw parcel_key indexed

  register_parcel-Meets :
      (m n : ℕ) (h1 : Bytes)
      → Addresses terra_token_program_id
          (register_parcel_accounts parcel lender)
          (build_register_parcel_instruction kit lender cadastral m n h1)
  unfolding build_register_parcel_instruction get_parcel_pda parcel_at is_signer_role
      is_writable_role
  register_parcel-Meets m n h1 =
      rw (found, encode_string_bytes kit cadastral, encode_u32_le_bytes m, concat_bytes-flatten _)
        (_, refl, refl, (refl, refl, refl, (refl, refl, refl, (refl, refl, refl, tt))))

  verify_parcel-Meets :
      Addresses terra_token_program_id
        (verify_parcel_accounts parcel)
        (build_verify_parcel_instruction kit cadastral)
  unfolding build_verify_parcel_instruction get_parcel_pda parcel_at is_signer_role is_writable_role
  verify_parcel-Meets =
      rw (found, encode_string_bytes kit cadastral, concat_bytes-flatten _)
        (_, refl, refl, (refl, refl, refl, tt))

  update_risk_assessment-Meets :
      (m n k : ℕ)
      → Addresses terra_token_program_id
          (update_risk_assessment_accounts parcel lender)
          (build_update_risk_assessment_instruction kit parcel lender cadastral m n k)
  unfolding build_update_risk_assessment_instruction is_signer_role is_writable_role
  update_risk_assessment-Meets m n k =
      rw (risk_assessment_data_writes (kit.utf8_encode cadastral) m n k)
        (_, refl, refl, (refl, refl, refl, (refl, refl, refl, tt)))

  register_encumbrance-Meets :
      (m : ℕ) (h1 h2 : Bytes)
      → Addresses lien_registry_program_id
          (register_encumbrance_accounts encumbrance lien_index parcel lender)
          (build_register_encumbrance_instruction kit lender parcel cadastral m h1 h2)
  unfolding is_signer_role is_writable_role
  register_encumbrance-Meets m h1 h2 = (
    registration kit lender parcel encumbrance lien_index b1 b2 encumbrance_derived index_derived
        cadastral m h1 h2,
    build_register_encumbrance_lem kit lender parcel encumbrance lien_index b1 b2
        encumbrance_derived index_derived cadastral m h1 h2,
    refl,
    (
      refl,
      refl,
      refl,
      (
        refl,
        refl,
        refl,
        (refl, refl, refl, (refl, refl, refl, (refl, refl, refl, (refl, refl, refl, tt)))),
      ),
    ),
  )

  release_encumbrance-Meets :
      Addresses lien_registry_program_id
        (release_encumbrance_accounts encumbrance lien_index parcel lender)
        (build_release_encumbrance_instruction kit lender parcel)
  unfolding is_signer_role is_writable_role
  release_encumbrance-Meets = (
    release kit lender parcel encumbrance lien_index b1 b2 encumbrance_derived index_derived,
    build_release_encumbrance_lem kit lender parcel encumbrance lien_index b1 b2 encumbrance_derived
        index_derived,
    refl,
    (refl, refl, refl, (refl, refl, refl, (refl, refl, refl, (refl, refl, refl, tt)))),
  )

  -- The builder of `mint_certificate` names two accounts.
  mint_certificate-short :
      (season : Text) (m : ℕ)
      → (ix : Instruction) × (build_mint_certificate_instruction kit lender cadastral season m
          ≡ ok ix)
        × (¬ Meets (mint_certificate_accounts parcel lender) ix.accounts)
  unfolding build_mint_certificate_instruction get_parcel_pda parcel_at is_signer_role
      is_writable_role
  mint_certificate-short season m =
      rw
        (
          found,
          encode_string_bytes kit cadastral,
          encode_string_bytes kit season,
          encode_u16_le_bytes m,
          concat_bytes-flatten _,
        )
        (_, refl, λ h. h.3.3)

  -- Where the parcel's and the lender's addresses encode and those of the parcel, its encumbrance and
  -- its index derive from the seeds that the programs give: whatever the other arguments, the builders
  -- of `register_parcel` (with the lender as the owner), `verify_parcel`, `update_risk_assessment`
  -- (with the lender as the authority), `register_encumbrance` and `release_encumbrance` return an
  -- instruction for the handler's program that names the accounts that the handler lists, each in its
  -- place, with the signer and writable flags that it asks for. The instruction of the builder of
  -- `mint_certificate` does not.
  pub build-Meets :
      (season : Text) (m n k : ℕ) (h1 h2 : Bytes)
      → Addresses terra_token_program_id
          (register_parcel_accounts parcel lender)
          (build_register_parcel_instruction kit lender cadastral m n h1)
        × Addresses terra_token_program_id
            (verify_parcel_accounts parcel)
            (build_verify_parcel_instruction kit cadastral)
        × Addresses terra_token_program_id
            (update_risk_assessment_accounts parcel lender)
            (build_update_risk_assessment_instruction kit parcel lender cadastral m n k)
        × Addresses lien_registry_program_id
            (register_encumbrance_accounts encumbrance lien_index parcel lender)
            (build_register_encumbrance_instruction kit lender parcel cadastral m h1 h2)
        × Addresses lien_registry_program_id
            (release_encumbrance_accounts encumbrance lien_index parcel lender)
            (build_release_encumbrance_instruction kit lender parcel)
        × ((ix : Instruction) × (build_mint_certificate_instruction kit lender cadastral season m
              ≡ ok ix)
            × (¬ Meets (mint_certificate_accounts parcel lender) ix.accounts))
  build-Meets season m n k h1 h2 = (
    register_parcel-Meets m n h1,
    verify_parcel-Meets,
    update_risk_assessment-Meets m n k,
    register_encumbrance-Meets m h1 h2,
    release_encumbrance-Meets,
    mint_certificate-short season m,
  )
