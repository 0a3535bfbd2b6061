-- ===== src/Program/Serialize.antt =====
-- `serializeTransactionB58` of web/src/solana/program.ts: the loop that fills the transaction against
-- one translation of the whole list.
use terra_ledger.Base.{
  arith, ◌≡◌, refl, sym, ap, ◌∙◌, List, [], ◌∷◌, ◌++◌, append-nil, append_assoc,
}
use terra_ledger.Base.{Outcome, ok, throws, ◌>>=◌, map_outcome, Outcome-cases, inl, inr}
use terra_ledger.Platform.{Address}
use terra_ledger.Program.{Instruction}
use terra_ledger.Program.Transaction.{
  Transaction, TransactionInstruction, Web3, transaction_instruction, add_instructions,
  serialize_transaction_b58,
}

regroup :
    (tx : Transaction) (added : TransactionInstruction) (m : Outcome (List TransactionInstruction))
    → (m >>= λ more. ok (record tx { instructions = (tx.instructions ++ (added ∷ [])) ++ more }))
      ≡ ((m >>= λ more. ok (added ∷ more)) >>= λ more.
          ok (record tx { instructions = tx.instructions ++ more }))
regroup tx added (ok more) =
    ap (λ is. ok (record tx { instructions = is })) (append_assoc tx.instructions (added ∷ []) more)
regroup tx added (throws e) = refl

module _ (web3 : Web3) where
  add_instructions-map :
      (tx : Transaction) (instructions : List Instruction)
      → add_instructions web3 tx instructions ≡ (
          map_outcome (transaction_instruction web3) instructions >>= λ added.
          ok (record tx { instructions = tx.instructions ++ added }))
  unfolding add_instructions map_outcome
  add_instructions-map tx [] =
      ap (λ is. ok (record tx { instructions = is })) (sym (append-nil tx.instructions))
  add_instructions-map tx (ix ∷ instructions) =
      elim (Outcome-cases (transaction_instruction web3 ix)) [
        | inl (added, e) ↦ rw e (
            add_instructions-map (record tx { instructions = tx.instructions ++ (added ∷ []) })
              instructions
            ∙ regroup tx added (map_outcome (transaction_instruction web3) instructions))
        | inr (x, e) ↦ rw e
      ]

  pub serialize_transaction_b58-map :
      (instructions : List Instruction) (fee_payer : Address)
      → serialize_transaction_b58 web3 instructions fee_payer ≡ (
          web3.latest_blockhash >>= λ blockhash. web3.public_key fee_payer >>= λ payer.
          map_outcome (transaction_instruction web3) instructions >>= λ added.
          web3.serialize
            (record { recent_blockhash = blockhash; fee_payer = payer; instructions = added })
          >>= λ serialized. ok (web3.b58_text serialized))
  unfolding serialize_transaction_b58
  serialize_transaction_b58-map instructions fee_payer = simp add_instructions-map (ground arith)
