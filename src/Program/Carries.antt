-- ===== src/Program/Carries.antt =====
-- The transaction that `serializeTransactionB58` of web/src/solana/program.ts serializes, described by
-- the numbers of @solana/kit's account roles.
use terra_ledger.Base.{ℕ, ◌%◌, ◌==◌, leb, ◌≡◌, refl, ◌⊎◌, inl, inr, List, [], ◌∷◌}
use terra_ledger.Base.{Outcome, ok, throws, ◌>>=◌, map_outcome, Outcome-cases, Thrown, Text}
use terra_ledger.Platform.{Address}
use terra_ledger.Program.{
  AccountRole, readonly, writable, readonly_signer, writable_signer, AccountMeta, Instruction,
}
use terra_ledger.Program.Transaction.{
  Key, Transaction, TransactionInstruction, Web3, key_of, transaction_instruction,
  serialize_transaction_b58, is_signer_role, is_writable_role,
}
use terra_ledger.Program.Serialize.{serialize_transaction_b58-map}

-- `AccountRole` of @solana/kit: bit 0 for writable, bit 1 for a signer
abbrev pub role_number : AccountRole → ℕ
role_number readonly = 0
role_number writable = 1
role_number readonly_signer = 2
role_number writable_signer = 3

module _ (web3 : Web3) where
  -- The keys of the accounts, in order, with the flags of their roles.
  abbrev pub Keys : List AccountMeta → List Key → Type 0
  Keys [] [] = Unit
  Keys (a ∷ metas) (k ∷ keys) =
      (web3.public_key a.address ≡ ok k.pubkey)
      × (k.is_signer ≡ leb 2 (role_number a.role))
      × (k.is_writable ≡ (role_number a.role % 2 == 1))
      × Keys metas keys
  Keys [] (k ∷ keys) = ⊥
  Keys (a ∷ metas) [] = ⊥

  -- The instructions, in order, each with its program, its keys and its data.
  abbrev pub Carries : List Instruction → List TransactionInstruction → Type 0
  Carries [] [] = Unit
  Carries (ix ∷ instructions) (t ∷ added) =
      (web3.public_key ix.program_address ≡ ok t.program_id)
      × Keys ix.accounts t.keys
      × (t.data' ≡ ix.data')
      × Carries instructions added
  Carries [] (t ∷ added) = ⊥
  Carries (ix ∷ instructions) [] = ⊥

  -- An address among those of the accounts, or of the instructions, for which `new PublicKey` throws.
  abbrev pub BadAccount : Thrown → List AccountMeta → Type 0
  BadAccount x [] = ⊥
  BadAccount x (a ∷ metas) = (web3.public_key a.address ≡ throws x) ⊎ BadAccount x metas

  abbrev pub BadAddress : Thrown → List Instruction → Type 0
  BadAddress x [] = ⊥
  BadAddress x (ix ∷ instructions) =
      ((web3.public_key ix.program_address ≡ throws x) ⊎ BadAccount x ix.accounts)
      ⊎ BadAddress x instructions

  pub record Describes (instructions : List Instruction) (fee_payer : Address) (tx : Transaction)
      : Type 0 where
    pub blockhash : web3.latest_blockhash ≡ ok tx.recent_blockhash
    pub payer : web3.public_key fee_payer ≡ ok tx.fee_payer
    pub carried : Carries instructions tx.instructions

  -- What the function comes to: the text of the serialized transaction, or what one of its calls
  -- throws.
  pub data Serialized (instructions : List Instruction) (fee_payer : Address)
      : Outcome Text → Type 0 where
    returned :
        (tx : Transaction) (bytes : _)
        → Describes instructions fee_payer tx
        → web3.serialize tx ≡ ok bytes
        → Serialized instructions fee_payer (ok (web3.b58_text bytes))
    no_blockhash :
        (x : Thrown)
        → web3.latest_blockhash ≡ throws x
        → Serialized instructions fee_payer (throws x)
    bad_payer :
        (x : Thrown)
        → web3.public_key fee_payer ≡ throws x
        → Serialized instructions fee_payer (throws x)
    bad_address :
        (x : Thrown) → BadAddress x instructions → Serialized instructions fee_payer (throws x)
    not_serialized :
        (tx : Transaction) (x : Thrown)
        → Describes instructions fee_payer tx
        → web3.serialize tx ≡ throws x
        → Serialized instructions fee_payer (throws x)

  is_signer_role_number : (r : AccountRole) → is_signer_role r ≡ leb 2 (role_number r)
  unfolding is_signer_role
  is_signer_role_number readonly = refl
  is_signer_role_number writable = refl
  is_signer_role_number readonly_signer = refl
  is_signer_role_number writable_signer = refl

  is_writable_role_number : (r : AccountRole) → is_writable_role r ≡ (role_number r % 2 == 1)
  unfolding is_writable_role
  is_writable_role_number readonly = refl
  is_writable_role_number writable = refl
  is_writable_role_number readonly_signer = refl
  is_writable_role_number writable_signer = refl

  key_of-Keys :
      (metas : List AccountMeta)
      → ((keys : List Key) × (map_outcome (key_of web3) metas ≡ ok keys) × Keys metas keys)
        ⊎ ((x : Thrown) × (map_outcome (key_of web3) metas ≡ throws x) × BadAccount x metas)
  unfolding map_outcome key_of
  key_of-Keys [] = inl ([], refl, tt)
  key_of-Keys (a ∷ metas) = elim (Outcome-cases (web3.public_key a.address)) [
    | inr (x, e) ↦ inr (x, rw e refl, inl e)
    | inl (pubkey, e) ↦ elim (key_of-Keys metas) [
      | inr (x, thrown, bad) ↦ inr (x, rw (e, thrown) refl, inr bad)
      | inl (keys, made, good) ↦ inl (
        record {
          pubkey = pubkey;
          is_signer = is_signer_role a.role;
          is_writable = is_writable_role a.role;
        }
            ∷ keys,
        rw (e, made) refl,
        (e, is_signer_role_number a.role, is_writable_role_number a.role, good),
      )
    ]
  ]

  transaction_instruction-Carries :
      (instructions : List Instruction)
      → ((added : List TransactionInstruction) × (map_outcome
              (transaction_instruction web3)
              instructions
            ≡ ok added)
          × Carries instructions added)
        ⊎ ((x : Thrown) × (map_outcome (transaction_instruction web3) instructions ≡ throws x)
            × BadAddress x instructions)
  unfolding map_outcome transaction_instruction
  transaction_instruction-Carries [] = inl ([], refl, tt)
  transaction_instruction-Carries (ix ∷ instructions) =
      elim (Outcome-cases (web3.public_key ix.program_address)) [
        | inr (x, e) ↦ inr (x, rw e refl, inl (inl e))
        | inl (program, e) ↦ elim (key_of-Keys ix.accounts) [
          | inr (x, thrown, bad) ↦ inr (x, rw (e, thrown) refl, inl (inr bad))
          | inl (keys, made, good) ↦ elim (transaction_instruction-Carries instructions) [
            | inr (x, thrown, bad) ↦ inr (x, rw (e, made, thrown) refl, inr bad)
            | inl (added, more, rest) ↦ inl (
              record { program_id = program; keys = keys; data' = ix.data' } ∷ added,
              rw (e, made, more) refl,
              (e, good, refl, rest),
            )
          ]
        ]
      ]

  -- The end of the function, from what its first two calls come to.
  with_outcomes-Serialized :
      (instructions : List Instruction) (fee_payer : Address) (blockhash payer : Outcome _)
      → web3.latest_blockhash ≡ blockhash
      → web3.public_key fee_payer ≡ payer
      → Serialized instructions fee_payer (
          blockhash >>= λ recent_blockhash. payer >>= λ payer'.
          map_outcome (transaction_instruction web3) instructions >>= λ added.
          web3.serialize (record {
            recent_blockhash = recent_blockhash;
            fee_payer = payer';
            instructions = added;
          })
          >>= λ bytes. ok (web3.b58_text bytes))
  with_outcomes-Serialized instructions fee_payer (throws x) payer e e1 = no_blockhash x e
  with_outcomes-Serialized instructions fee_payer (ok blockhash) (throws x) e e1 = bad_payer x e1
  with_outcomes-Serialized instructions fee_payer (ok blockhash) (ok payer) e e1 =
      elim (transaction_instruction-Carries instructions) [
        | inr (x, thrown, bad) ↦ rw thrown (bad_address x bad)
        | inl (added, made, good) ↦
            let tx : Transaction = record {
              recent_blockhash = blockhash;
              fee_payer = payer;
              instructions = added;
            } in
            let fits : Describes instructions fee_payer tx = record {
              blockhash = e;
              payer = e1;
              carried = good;
            } in
            elim (Outcome-cases (web3.serialize tx)) [
              | inr (x, e2) ↦ rw (made, e2) (not_serialized tx x fits e2)
              | inl (bytes, e2) ↦ rw (made, e2) (returned tx bytes fits e2)
            ]
      ]

  -- `serializeTransactionB58` returns the base58 text of what `tx.serialize` gives for a transaction
  -- with the latest blockhash, the payer, and every instruction in order with its program, its data
  -- and its accounts in order, flagged as signer and writable by the bits of their roles; or it throws
  -- what the call for the blockhash, an address among these, or `tx.serialize` throws.
  pub serialize_transaction_b58-Serialized :
      (instructions : List Instruction) (fee_payer : Address)
      → Serialized instructions fee_payer (serialize_transaction_b58 web3 instructions fee_payer)
  serialize_transaction_b58-Serialized instructions fee_payer =
      rw (serialize_transaction_b58-map web3 instructions fee_payer) (
        with_outcomes-Serialized instructions fee_payer web3.latest_blockhash
          (web3.public_key fee_payer) refl refl)
