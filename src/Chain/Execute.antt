-- ===== src/Chain/Execute.antt =====
-- How an instruction reaches a handler of lien_registry: the program reads the call from the data,
-- takes the accounts in the order of the handler's `#[derive(Accounts)]` struct, and checks their
-- flags, the programs among them and that the two derived accounts are at their addresses.
use terra_ledger.Base.{ℕ, List, [], ◌∷◌, Bool, ◌&&◌}
use terra_ledger.Base.{Outcome, ok, throws, text}
use terra_ledger.Bytes.{Bytes, bytes_eq}
use terra_ledger.Platform.{Address, Kit, text_seed, bytes_seed}
use terra_ledger.Program.{
  lien_registry_program_id, terra_token_program_id, system_program, AccountMeta, Instruction,
}
use terra_ledger.Program.Transaction.{is_signer_role, is_writable_role}
use terra_ledger.Program.Wire.{read_lien_call, LienCall, register_encumbrance, release_encumbrance}
use terra_ledger.Chain.{Store, Attempt, returns, fails, account_error, ◌>>=◌, must, account, Clock}
use terra_ledger.Chain.Lien

abbrev pub of_outcome : {A : Type 0} → Outcome A → Attempt A
of_outcome (ok a) = returns a
of_outcome (throws e) = fails account_error

module _ (kit : Kit) where
  -- seeds = [PARCEL_SEED, cadastral_number.as_bytes()]
  unfoldable pub parcel_at : Bytes → Outcome (Address × ℕ)
  parcel_at cadastral =
      kit.find_pda terra_token_program_id (text_seed (text "parcel") ∷ bytes_seed cadastral ∷ [])

  -- seeds = [ENCUMBRANCE_SEED, parcel_config.key(), lender.key()]
  unfoldable pub encumbrance_at : Bytes → Bytes → Outcome (Address × ℕ)
  encumbrance_at key who =
      kit.find_pda lien_registry_program_id
        (text_seed (text "encumbrance") ∷ bytes_seed key ∷ bytes_seed who ∷ [])

  -- seeds = [LIEN_INDEX_SEED, parcel_config.key()]
  unfoldable pub lien_index_at : Bytes → Outcome (Address × ℕ)
  lien_index_at key =
      kit.find_pda lien_registry_program_id (text_seed (text "lien_index") ∷ bytes_seed key ∷ [])

-- `Program<'info, T>`: the account is the program itself.
abbrev is_program : AccountMeta → Address → Bool
is_program meta program = bytes_eq meta.address program

module _ (kit : Kit) (pda : Bytes → Bytes) (clock : Clock) (s : Store) where
  -- The accounts of `RegisterEncumbrance`, in order: the two that `init` makes are writable, the
  -- lender signs and pays, and the two programs are there. That terra_token owns `parcel_config` is that
  -- the handler finds a parcel there.
  unfoldable pub run_register : Bytes → ℕ → Bytes → Bytes → List AccountMeta → Attempt Store
  unfolding encumbrance_at lien_index_at is_signer_role is_writable_role
  run_register cadastral amount sig cert
        (encumbrance ∷ lien_index ∷ parcel_config ∷ lender ∷ system ∷ terra_token ∷ rest) =
      do
        key ← of_outcome (kit.address_encode parcel_config.address)
        who ← of_outcome (kit.address_encode lender.address)
        _ ← must (is_signer_role lender.role && is_writable_role lender.role) account_error
        _ ← must (is_writable_role encumbrance.role) account_error
        _ ← must (is_writable_role lien_index.role) account_error
        _ ← must (is_program system system_program) account_error
        _ ← must (is_program terra_token terra_token_program_id) account_error
        (lien_at, lien_bump) ← of_outcome (encumbrance_at kit key who)
        _ ← must (bytes_eq encumbrance.address lien_at) account_error
        (index_at, index_bump) ← of_outcome (lien_index_at kit key)
        _ ← must (bytes_eq lien_index.address index_at) account_error
        Lien.register_encumbrance pda clock s key who lien_bump index_bump cadastral amount sig cert
  run_register cadastral amount sig cert _ = fails account_error

  -- The accounts of `ReleaseEncumbrance`: the encumbrance, the index and the lender are `mut`.
  unfoldable pub run_release : List AccountMeta → Attempt Store
  unfolding encumbrance_at lien_index_at is_signer_role is_writable_role
  run_release (encumbrance ∷ lien_index ∷ parcel_config ∷ lender ∷ rest) = do
    key ← of_outcome (kit.address_encode parcel_config.address)
    who ← of_outcome (kit.address_encode lender.address)
    _ ← must (is_signer_role lender.role && is_writable_role lender.role) account_error
    _ ← must (is_writable_role encumbrance.role) account_error
    _ ← must (is_writable_role lien_index.role) account_error
    (lien_at, _) ← of_outcome (encumbrance_at kit key who)
    _ ← must (bytes_eq encumbrance.address lien_at) account_error
    (index_at, _) ← of_outcome (lien_index_at kit key)
    _ ← must (bytes_eq lien_index.address index_at) account_error
    Lien.release_encumbrance pda clock s key who
  run_release _ = fails account_error

  unfoldable pub run_lien_call : LienCall → List AccountMeta → Attempt Store
  unfolding run_register run_release
  run_lien_call (register_encumbrance cadastral amount sig cert) metas =
      run_register cadastral amount sig cert metas
  run_lien_call release_encumbrance metas = run_release metas

  unfoldable pub execute_lien : Instruction → Attempt Store
  unfolding run_lien_call read_lien_call
  execute_lien ix = do
    _ ← must (bytes_eq ix.program_address lien_registry_program_id) account_error
    call ← account (read_lien_call ix.data')
    run_lien_call call ix.accounts
