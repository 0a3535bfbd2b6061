-- ===== src/Program/Risk.antt =====
-- `buildUpdateRiskAssessmentInstruction` of sdk/src/program.ts, which fills one buffer in place.
use terra_ledger.Base.{ℕ, ◌+◌, ◌%◌, [], ◌∷◌, ◌++◌}
use terra_ledger.Base.{length, take, drop, ltb, if◌then◌else◌, Outcome, ok, ◌>>=◌, Text}
use terra_ledger.Bytes.{Bytes, zeros, set, set_uint}
use terra_ledger.Platform.{Address, Kit}
use terra_ledger.Program.{
  terra_token_program_id, update_risk_assessment_discriminator, Instruction, writable,
  writable_signer,
}

-- `out[i] = v`: an index out of range is ignored.
unfoldable pub write_u8 : Bytes → ℕ → ℕ → Bytes
write_u8 out i v =
    if ltb i (length out) then take i out ++ (((v % 256) ∷ []) ++ drop (i + 1) out) else out

-- `data` when all the writes are done
unfoldable pub risk_assessment_data : Bytes → ℕ → ℕ → ℕ → Outcome Bytes
risk_assessment_data cadastral_bytes ai_score collateral_grade recommended_ltv = do
  let size = 8 + 4 + length cadastral_bytes + 1 + 1 + 2
  d1 ← set (zeros size) 0 update_risk_assessment_discriminator
  d2 ← set_uint 4 d1 8 (length cadastral_bytes)
  d3 ← set d2 12 cadastral_bytes
  let off = 12 + length cadastral_bytes
  set_uint 2 (write_u8 (write_u8 d3 off ai_score) (off + 1) collateral_grade) (off + 2)
      recommended_ltv

unfoldable pub build_update_risk_assessment_instruction :
    Kit → Address → Address → Text → ℕ → ℕ → ℕ → Outcome Instruction
build_update_risk_assessment_instruction kit parcel_pda authority cadastral_number ai_score
      collateral_grade recommended_ltv =
    do
      bytes ←
          risk_assessment_data (kit.utf8_encode cadastral_number) ai_score collateral_grade
            recommended_ltv
      ok (record {
        program_address = terra_token_program_id;
        accounts =
            record { address = parcel_pda; role = writable }
            ∷ record { address = authority; role = writable_signer }
            ∷ [];
        data' = bytes;
      })
