-- ===== src/Program/Transaction.antt =====
-- `serializeTransactionB58`, `bs58Encode` and `submitSignedTransaction` of
-- web/src/solana/program.ts. @solana/web3.js and the base58 codec are the parameter `Web3`.
use terra_ledger.Base.{List, [], ◌∷◌, ◌++◌, Bool, true, false}
use terra_ledger.Base.{Outcome, ok, ◌>>=◌, map_outcome, Text}
use terra_ledger.Bytes.{Bytes}
use terra_ledger.Platform.{Address}
use terra_ledger.Program.{
  AccountRole, readonly, writable, readonly_signer, writable_signer, AccountMeta, Instruction,
}

pub record Key : Type 0 where
  pub pubkey : Bytes
  pub is_signer : Bool
  pub is_writable : Bool

pub record TransactionInstruction : Type 0 where
  pub program_id : Bytes
  pub keys : List Key
  pub data' : Bytes

pub record Transaction : Type 0 where
  pub recent_blockhash : Text
  pub fee_payer : Bytes
  pub instructions : List TransactionInstruction

pub record Web3 : Type 0 where
  -- `(await connection.getLatestBlockhash('confirmed')).blockhash`
  pub latest_blockhash : Outcome Text
  -- `new PublicKey(address)`, which throws on a text that is no address
  pub public_key : Address → Outcome Bytes
  -- `tx.serialize({ requireAllSignatures: false })`
  pub serialize : Transaction → Outcome Bytes
  -- `getBase58Decoder().decode` and `getBase58Encoder().encode`
  pub b58_text : Bytes → Text
  pub b58_bytes : Text → Outcome Bytes
  -- `connection.sendRawTransaction`
  pub send_raw_transaction : Bytes → Outcome Text

-- `a.role === WRITABLE_SIGNER || a.role === READONLY_SIGNER`
unfoldable pub is_signer_role : AccountRole → Bool
is_signer_role writable_signer = true
is_signer_role readonly_signer = true
is_signer_role writable = false
is_signer_role readonly = false

-- `a.role === WRITABLE || a.role === WRITABLE_SIGNER`
unfoldable pub is_writable_role : AccountRole → Bool
is_writable_role writable = true
is_writable_role writable_signer = true
is_writable_role readonly_signer = false
is_writable_role readonly = false

module _ (web3 : Web3) where
  unfoldable pub key_of : AccountMeta → Outcome Key
  key_of a = do
    pubkey ← web3.public_key a.address
    ok (record {
      pubkey = pubkey;
      is_signer = is_signer_role a.role;
      is_writable = is_writable_role a.role;
    })

  unfoldable pub transaction_instruction : Instruction → Outcome TransactionInstruction
  transaction_instruction ix = do
    program_id ← web3.public_key ix.program_address
    keys ← map_outcome key_of ix.accounts
    ok (record { program_id = program_id; keys = keys; data' = ix.data' })

  -- the loop over `instructions`, with `tx.add` at the end of the list
  unfoldable pub add_instructions : Transaction → List Instruction → Outcome Transaction
  add_instructions tx [] = ok tx
  add_instructions tx (ix ∷ instructions) = do
    added ← transaction_instruction ix
    add_instructions (record tx { instructions = tx.instructions ++ (added ∷ []) }) instructions

  unfoldable pub serialize_transaction_b58 : List Instruction → Address → Outcome Text
  serialize_transaction_b58 instructions fee_payer = do
    blockhash ← web3.latest_blockhash
    payer ← web3.public_key fee_payer
    tx ←
        add_instructions
          (record { recent_blockhash = blockhash; fee_payer = payer; instructions = [] })
          instructions
    serialized ← web3.serialize tx
    ok (web3.b58_text serialized)

  unfoldable pub submit_signed_transaction : Text → Outcome Text
  submit_signed_transaction signed_tx_b58 = do
    tx_bytes ← web3.b58_bytes signed_tx_b58
    web3.send_raw_transaction tx_bytes
