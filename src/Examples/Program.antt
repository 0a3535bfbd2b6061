-- ===== src/Examples/Program.antt =====
-- The builders of web/src/solana/program.ts and sdk/src/program.ts on the parcel KZ1.
use terra_ledger.Base.{◌≡◌, refl, arith, List, [], ◌∷◌, ok, none, some, text}
use terra_ledger.Base.{flatten, map}
use terra_ledger.Bytes.{Bytes}
use terra_ledger.Platform.Sample.{sample}
use terra_ledger.Program.{
  Instruction, terra_token_program_id, lien_registry_program_id, concat_bytes,
  build_register_parcel_instruction, build_mint_certificate_instruction,
  build_verify_parcel_instruction,
}
use terra_ledger.Program.Lien.{
  build_register_encumbrance_instruction, build_release_encumbrance_instruction,
}
use terra_ledger.Program.Risk.{build_update_risk_assessment_instruction}
use terra_ledger.Program.Concat.{concat_bytes-flatten}
use terra_ledger.Program.Wire.{read_terra_call, register_parcel}
use terra_ledger.Program.Args.Register.{read-build_register_parcel}
use terra_ledger.Program.Args.Mint.{read-build_mint_certificate}
use terra_ledger.Program.Transaction.{TransactionInstruction, Web3, serialize_transaction_b58}
use terra_ledger.Program.Carries.{Serialized, serialize_transaction_b58-Serialized}
use terra_ledger.Program.Roles.{build-Meets}
use terra_ledger.Program.Structs.{
  Addresses, Meets, register_parcel_accounts, verify_parcel_accounts,
  update_risk_assessment_accounts, register_encumbrance_accounts, release_encumbrance_accounts,
  mint_certificate_accounts,
}
use terra_ledger.Chain.Execute.{parcel_at}
use terra_ledger.Examples.Chain.{lien_at, index_at, kz1_pda_key, lender_key}
use terra_ledger.Examples.Samples.{
  kz1, kz1_pda, kz1-derived, thirty_two, farmer, lender, lien_pda, index_pda,
}

concat_bytes-flatten_example :
    concat_bytes ((1 ∷ 2 ∷ []) ∷ [] ∷ (3 ∷ []) ∷ []) ≡ ok (1 ∷ 2 ∷ 3 ∷ [])
concat_bytes-flatten_example = concat_bytes-flatten ((1 ∷ 2 ∷ []) ∷ [] ∷ (3 ∷ []) ∷ [])

-- The bytes of the string KZ1, by the codec of the sample.
abbrev kz1_bytes : Bytes
kz1_bytes = 75 ∷ 0 ∷ 90 ∷ 0 ∷ 49 ∷ 0 ∷ []

-- 2 ^ 32 + 5 hectares and land class 258 arrive as 5 and 2.
read-build_register_parcel_example :
    (ix : Instruction) × (build_register_parcel_instruction sample farmer kz1 4294967301 258
        (thirty_two 171)
      ≡ ok ix)
    × (read_terra_call ix.data' ≡ some (register_parcel kz1_bytes 5 2 (thirty_two 171)))
unfolding sample
read-build_register_parcel_example =
    read-build_register_parcel sample kz1 kz1_pda 255 kz1-derived (omega arith) farmer 4294967301
      258 (thirty_two 171) refl

read-build_mint_certificate_example :
    (ix : Instruction) × (build_mint_certificate_instruction sample farmer kz1 (text "2026-Q1") 780
      ≡ ok ix)
    × (read_terra_call ix.data' ≡ none)
unfolding sample
read-build_mint_certificate_example =
    read-build_mint_certificate sample kz1 kz1_pda 255 kz1-derived (omega arith) farmer
      (text "2026-Q1") 780 (omega arith)

kz1_at : parcel_at sample (sample.utf8_encode kz1) ≡ ok (kz1_pda, 255)
unfolding parcel_at sample
kz1_at = refl

build-Meets_example :
    Addresses terra_token_program_id
      (register_parcel_accounts kz1_pda lender)
      (build_register_parcel_instruction sample lender kz1 4530 2 (thirty_two 171))
    × Addresses terra_token_program_id
        (verify_parcel_accounts kz1_pda)
        (build_verify_parcel_instruction sample kz1)
    × Addresses terra_token_program_id
        (update_risk_assessment_accounts kz1_pda lender)
        (build_update_risk_assessment_instruction sample kz1_pda lender kz1 4530 2 7000)
    × Addresses lien_registry_program_id
        (register_encumbrance_accounts lien_pda index_pda kz1_pda lender)
        (build_register_encumbrance_instruction sample lender kz1_pda kz1 4530
          (thirty_two 171)
          (thirty_two 205))
    × Addresses lien_registry_program_id
        (release_encumbrance_accounts lien_pda index_pda kz1_pda lender)
        (build_release_encumbrance_instruction sample lender kz1_pda)
    × ((ix : Instruction) × (build_mint_certificate_instruction sample lender kz1
            (text "2026-Q1")
            4530
          ≡ ok ix)
        × (¬ Meets (mint_certificate_accounts kz1_pda lender) ix.accounts))
build-Meets_example =
    build-Meets sample lender kz1_pda lien_pda index_pda 255 255 255 kz1_pda lender kz1_pda_key
      lender_key kz1 kz1_at lien_at index_at (text "2026-Q1") 4530 2 7000 (thirty_two 171)
      (thirty_two 205)

-- A connection whose `serialize` gives the data of the instructions.
abbrev loopback : Web3
loopback = record {
  latest_blockhash = ok (text "blockhash");
  public_key = λ a. ok a;
  serialize = λ tx. ok (flatten (map (λ (ix : TransactionInstruction). ix.data') tx.instructions));
  b58_text = λ b. b;
  b58_bytes = λ t. ok t;
  send_raw_transaction = λ b. ok b;
}

abbrev two_instructions : List Instruction
two_instructions =
    record { program_address = farmer; accounts = []; data' = 1 ∷ [] }
    ∷ record { program_address = lender; accounts = []; data' = 2 ∷ 3 ∷ [] }
    ∷ []

serialize_transaction_b58-Serialized_example :
    Serialized loopback two_instructions farmer
      (serialize_transaction_b58 loopback two_instructions farmer)
serialize_transaction_b58-Serialized_example =
    serialize_transaction_b58-Serialized loopback two_instructions farmer
