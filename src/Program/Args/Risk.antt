-- ===== src/Program/Args/Risk.antt =====
-- `buildUpdateRiskAssessmentInstruction` of sdk/src/program.ts, which writes into one buffer,
-- against the concatenation that the other builders make, and against the handler's arguments.
use terra_ledger.Base.{ℕ, suc, ◌+◌, ◌%◌, ◌^◌, ◌<◌, ◌≡◌, refl, sym, ap, arith, [], ◌∷◌, ◌++◌}
use terra_ledger.Base.{append-nil, append_assoc, length, length-append, ok, Text, some}
use terra_ledger.Bytes.{Bytes, zeros, set, set_uint, le_bytes}
use terra_ledger.Bytes.Words.{length-le_bytes}
use terra_ledger.Bytes.Writes.{set_next}
use terra_ledger.Platform.{Address, Kit}
use terra_ledger.Program.{
  update_risk_assessment_discriminator, terra_token_program_id, Instruction, writable,
  writable_signer,
}
use terra_ledger.Program.Risk.{
  write_u8, risk_assessment_data, build_update_risk_assessment_instruction,
}
use terra_ledger.Program.Encode.{borsh_string}
use terra_ledger.Program.Readers.{take_bytes-append, take_uint-append, take_string-append}
use terra_ledger.Program.Wire.{read_terra_call, read_update_risk_assessment, update_risk_assessment}

write_u8-set :
    (out : Bytes) (i v : ℕ) {r : Bytes} → set out i ((v % 256) ∷ []) ≡ ok r → write_u8 out i v ≡ r
unfolding set write_u8
write_u8-set out i v h = ground arith

write_u8_next :
    (done : Bytes) (n k i v : ℕ)
    → n ≡ suc k
    → i ≡ length done
    → write_u8 (done ++ zeros n) i v ≡ (done ++ ((v % 256) ∷ [])) ++ zeros k
write_u8_next done n k i v size here =
    write_u8-set (done ++ zeros n) i v (set_next done ((v % 256) ∷ []) n k i (omega arith) here)

-- What is in the buffer after each of the first five writes, for the proof.
module _ (cadastral : Bytes) (score grade : ℕ) where
  abbrev tagged : Bytes
  tagged = update_risk_assessment_discriminator ++ le_bytes 4 (length cadastral)

  abbrev named : Bytes
  named = tagged ++ cadastral

  abbrev scored : Bytes
  scored = named ++ ((score % 256) ∷ [])

  abbrev graded : Bytes
  graded = scored ++ ((grade % 256) ∷ [])

  length-tagged : length tagged ≡ 12
  length-tagged = omega (arith, length-le_bytes 4 (length cadastral))

  length-named : length named ≡ 12 + length cadastral
  length-named = omega (arith, length-append tagged cadastral, length-tagged)

  length-scored : length scored ≡ 12 + length cadastral + 1
  length-scored = omega (arith, length-append named ((score % 256) ∷ []), length-named)

  length-graded : length graded ≡ 12 + length cadastral + 2
  length-graded = omega (arith, length-append scored ((grade % 256) ∷ []), length-scored)

  pub risk_assessment_data_writes :
      (ltv : ℕ) → risk_assessment_data cadastral score grade ltv ≡ ok (graded ++ le_bytes 2 ltv)
  unfolding risk_assessment_data set_uint
  risk_assessment_data_writes ltv =
      let n : ℕ = length cadastral in
      rw
        (
          set_next [] update_risk_assessment_discriminator (8 + 4 + n + 1 + 1 + 2) (4 + n + 4) 0
              (omega arith) refl,
          set_next update_risk_assessment_discriminator (le_bytes 4 n) (4 + n + 4) (n + 4) 8
              (omega (arith, length-le_bytes 4 n)) refl,
          set_next tagged cadastral (n + 4) 4 12 refl (sym length-tagged),
          write_u8_next named 4 3 (12 + n) score refl (sym length-named),
          write_u8_next scored 3 2 (12 + n + 1) grade refl (sym length-scored),
          set_next graded (le_bytes 2 ltv) 2 0 (12 + n + 2) (omega (arith, length-le_bytes 2 ltv))
              (sym length-graded),
        )
        (ap ok (append-nil (graded ++ le_bytes 2 ltv)))

read_update_risk_assessment-args :
    (cadastral : Bytes) (score grade ltv : ℕ)
    → length cadastral < 2 ^ 32
    → read_update_risk_assessment (
        borsh_string cadastral
        ++ (le_bytes 1 score ++ (le_bytes 1 grade ++ (le_bytes 2 ltv ++ []))))
      ≡ some (update_risk_assessment cadastral (score % 256) (grade % 256) (ltv % 2 ^ 16))
unfolding read_update_risk_assessment
read_update_risk_assessment-args cadastral score grade ltv h = rw (
  take_string-append cadastral (le_bytes 1 score ++ (le_bytes 1 grade ++ (le_bytes 2 ltv ++ []))) h,
  take_uint-append 1 score (le_bytes 1 grade ++ (le_bytes 2 ltv ++ [])),
  take_uint-append 1 grade (le_bytes 2 ltv ++ []),
  take_uint-append 2 ltv [],
)

graded_args :
    (cadastral : Bytes) (score grade ltv : ℕ)
    → graded cadastral score grade ++ le_bytes 2 ltv
      ≡ update_risk_assessment_discriminator
        ++ (borsh_string cadastral
            ++ (le_bytes 1 score ++ (le_bytes 1 grade ++ (le_bytes 2 ltv ++ []))))
graded_args cadastral score grade ltv = unfold le_bytes in simp (append_assoc, append-nil)

-- Where the UTF-8 of the cadastral number is shorter than 2 ^ 32 bytes,
-- `buildUpdateRiskAssessmentInstruction` of the SDK returns an instruction whose data `terra_token`
-- reads as `update_risk_assessment` with the same cadastral number, the score and the grade modulo
-- 256 and the LTV modulo 2 ^ 16.
pub read-build_update_risk_assessment :
    (kit : Kit) (parcel_pda authority : Address) (cadastral : Text) (score grade ltv : ℕ)
    → length (kit.utf8_encode cadastral) < 2 ^ 32
    → (ix : Instruction) × (build_update_risk_assessment_instruction kit parcel_pda authority
          cadastral score grade ltv
        ≡ ok ix)
      × (read_terra_call ix.data'
          ≡ some (
              update_risk_assessment
                (kit.utf8_encode cadastral)
                (score % 256)
                (grade % 256)
                (ltv % 2 ^ 16)))
unfolding build_update_risk_assessment_instruction read_terra_call
read-build_update_risk_assessment kit parcel_pda authority cadastral score grade ltv h =
    let b : Bytes = kit.utf8_encode cadastral in
    (
      record {
        program_address = terra_token_program_id;
        accounts =
            record { address = parcel_pda; role = writable }
            ∷ record { address = authority; role = writable_signer }
            ∷ [];
        data' = graded b score grade ++ le_bytes 2 ltv;
      },
      rw (risk_assessment_data_writes b score grade ltv),
      rw
          (
            graded_args b score grade ltv,
            take_bytes-append 8 update_risk_assessment_discriminator _ refl,
          )
          (read_update_risk_assessment-args b score grade ltv h),
    )
