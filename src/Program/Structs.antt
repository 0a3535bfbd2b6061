-- ===== src/Program/Structs.antt =====
-- The accounts that the on-chain handlers ask for, as the `#[derive(Accounts)]` structs of
-- contracts/programs list them.
use terra_ledger.Base.{◌≡◌, List, [], ◌∷◌, Bool, true, false, not, ◌||◌, Option, none, some}
use terra_ledger.Base.{Outcome, ok}
use terra_ledger.Platform.{Address}
use terra_ledger.Program.{terra_token_program_id, system_program, AccountMeta, Instruction}
use terra_ledger.Program.Transaction.{is_signer_role, is_writable_role}

-- What a struct asks of one account: its address, where its seeds, its type or the call give it;
-- `Signer`; and `mut` or `init`.
pub record Requirement : Type 0 where
  pub named : Option Address
  pub signer : Bool
  pub mutable : Bool

abbrev pub plain : Option Address → Requirement
plain a = record { named = a; signer = false; mutable = false }

abbrev pub mut_account : Option Address → Requirement
mut_account a = record { named = a; signer = false; mutable = true }

abbrev pub signer_account : Option Address → Requirement
signer_account a = record { named = a; signer = true; mutable = false }

abbrev pub mut_signer : Option Address → Requirement
mut_signer a = record { named = a; signer = true; mutable = true }

-- The structs, with the addresses that they fix. `certificate_mint`, `token_account` and `owner` of
-- `MintCertificate`, its token program and the associated-token program are any.
abbrev pub register_parcel_accounts : Address → Address → List Requirement
register_parcel_accounts parcel owner =
    mut_account (some parcel) ∷ mut_signer (some owner) ∷ plain (some system_program) ∷ []

abbrev pub verify_parcel_accounts : Address → List Requirement
verify_parcel_accounts parcel = plain (some parcel) ∷ []

abbrev pub mint_certificate_accounts : Address → Address → List Requirement
mint_certificate_accounts parcel mint_authority =
    mut_account (some parcel)
    ∷ mut_signer none
    ∷ mut_account none
    ∷ plain none
    ∷ mut_signer (some mint_authority)
    ∷ plain none
    ∷ plain none
    ∷ plain (some system_program)
    ∷ []

abbrev pub update_risk_assessment_accounts : Address → Address → List Requirement
update_risk_assessment_accounts parcel authority =
    mut_account (some parcel) ∷ signer_account (some authority) ∷ []

abbrev pub register_encumbrance_accounts :
    (encumbrance lien_index parcel lender : Address) → List Requirement
register_encumbrance_accounts encumbrance lien_index parcel lender =
    mut_account (some encumbrance)
    ∷ mut_account (some lien_index)
    ∷ plain (some parcel)
    ∷ mut_signer (some lender)
    ∷ plain (some system_program)
    ∷ plain (some terra_token_program_id)
    ∷ []

abbrev pub release_encumbrance_accounts :
    (encumbrance lien_index parcel lender : Address) → List Requirement
release_encumbrance_accounts encumbrance lien_index parcel lender =
    mut_account (some encumbrance)
    ∷ mut_account (some lien_index)
    ∷ plain (some parcel)
    ∷ mut_signer (some lender)
    ∷ []

abbrev pub IsNamed : Option Address → Address → Type 0
IsNamed none a = Unit
IsNamed (some named) a = a ≡ named

-- The accounts are taken in order. Each must be the one that is asked for, with the flags asked for.
abbrev pub Meets : List Requirement → List AccountMeta → Type 0
Meets [] metas = Unit
Meets (r ∷ rs) [] = ⊥
Meets (r ∷ rs) (m ∷ metas) =
    IsNamed r.named m.address
    × ((not r.signer || is_signer_role m.role) ≡ true)
    × ((not r.mutable || is_writable_role m.role) ≡ true)
    × Meets rs metas

-- An instruction is returned, for the program and with the accounts that are asked for.
abbrev pub Addresses : Address → List Requirement → Outcome Instruction → Type 0
Addresses program asked built =
    (ix : Instruction) × (built ≡ ok ix) × (ix.program_address ≡ program) × Meets asked ix.accounts
