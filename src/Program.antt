-- ===== src/Program.antt =====
-- web/src/solana/program.ts (and sdk/src/program.ts, which has the same text and one builder more):
-- derived addresses, encoders and instruction builders. A builder is async only because it derives
-- addresses; the model returns what its promise comes to. A number that the builder encodes is a
-- natural number, and wraps as `DataView` and `Uint8Array` wrap it.
pub mod Concat
pub mod Encode
pub mod Lien
pub mod Risk
pub mod Wire
pub mod Readers
pub mod Args
pub mod Transaction
pub mod Structs
pub mod Roles
pub mod Serialize
pub mod Carries
use terra_ledger.Base.{ℕ, ◌+◌, ◌%◌, List, [], ◌∷◌, length}
use terra_ledger.Base.{Outcome, ok, ◌>>=◌, Text, text}
use terra_ledger.Bytes.{Bytes, zeros, set, set_uint}
use terra_ledger.Platform.{Address, text_seed, bytes_seed, Kit}

abbrev pub terra_token_program_id : Address
terra_token_program_id = text "2eAqpJ7yjso7FDA4sDQLJQioNCRuoYSUeha2Y88NRRMX"

abbrev pub lien_registry_program_id : Address
lien_registry_program_id = text "3qYHSTPeRLRDfWmtzEhiaHpT2kchgW8GqaYcwmDbKnq4"

abbrev pub system_program : Address
system_program = text "11111111111111111111111111111111"

abbrev pub register_parcel_discriminator : Bytes
register_parcel_discriminator = 170 ∷ 232 ∷ 221 ∷ 44 ∷ 109 ∷ 149 ∷ 104 ∷ 207 ∷ []

abbrev pub mint_certificate_discriminator : Bytes
mint_certificate_discriminator = 53 ∷ 2 ∷ 104 ∷ 84 ∷ 51 ∷ 197 ∷ 179 ∷ 10 ∷ []

abbrev pub seasonal_check_discriminator : Bytes
seasonal_check_discriminator = 161 ∷ 143 ∷ 168 ∷ 146 ∷ 218 ∷ 14 ∷ 59 ∷ 80 ∷ []

abbrev pub verify_parcel_discriminator : Bytes
verify_parcel_discriminator = 45 ∷ 47 ∷ 217 ∷ 191 ∷ 140 ∷ 31 ∷ 95 ∷ 178 ∷ []

abbrev pub register_encumbrance_discriminator : Bytes
register_encumbrance_discriminator = 5 ∷ 82 ∷ 66 ∷ 155 ∷ 31 ∷ 178 ∷ 204 ∷ 252 ∷ []

abbrev pub release_encumbrance_discriminator : Bytes
release_encumbrance_discriminator = 144 ∷ 232 ∷ 132 ∷ 141 ∷ 47 ∷ 237 ∷ 85 ∷ 194 ∷ []

-- sdk/src/program.ts only
abbrev pub update_risk_assessment_discriminator : Bytes
update_risk_assessment_discriminator = 206 ∷ 125 ∷ 9 ∷ 31 ∷ 32 ∷ 136 ∷ 237 ∷ 16 ∷ []

-- `AccountRole`, `AccountMeta` and `Instruction` of @solana/kit, as the builders fill them.
pub data AccountRole : Type 0 where
  readonly writable readonly_signer writable_signer : AccountRole

pub record AccountMeta : Type 0 where
  pub address : Address
  pub role : AccountRole

pub record Instruction : Type 0 where
  pub program_address : Address
  pub accounts : List AccountMeta
  pub data' : Bytes

unfoldable pub encode_u64_le : ℕ → Outcome Bytes
encode_u64_le value = set_uint 8 (zeros 8) 0 value

unfoldable pub encode_u32_le : ℕ → Outcome Bytes
encode_u32_le value = set_uint 4 (zeros 4) 0 value

unfoldable pub encode_u16_le : ℕ → Outcome Bytes
encode_u16_le value = set_uint 2 (zeros 2) 0 value

-- `arrays.reduce((s, a) => s + a.length, 0)`
unfoldable pub total_length : ℕ → List Bytes → ℕ
total_length s [] = s
total_length s (a ∷ arrays) = total_length (s + length a) arrays

-- the loop of `concatBytes`
unfoldable pub concat_loop : Bytes → ℕ → List Bytes → Outcome Bytes
concat_loop out offset [] = ok out
concat_loop out offset (a ∷ arrays) = do
  out' ← set out offset a
  concat_loop out' (offset + length a) arrays

unfoldable pub concat_bytes : List Bytes → Outcome Bytes
concat_bytes arrays = concat_loop (zeros (total_length 0 arrays)) 0 arrays

module _ (kit : Kit) where
  unfoldable pub encode_string : Text → Outcome Bytes
  encode_string value = do
    let str_bytes = kit.utf8_encode value
    buf ← set_uint 4 (zeros (4 + length str_bytes)) 0 (length str_bytes)
    set buf 4 str_bytes

  unfoldable pub get_parcel_pda : Text → Outcome (Address × ℕ)
  get_parcel_pda cadastral_number =
      kit.find_pda terra_token_program_id
        (text_seed (text "parcel") ∷ bytes_seed (kit.utf8_encode cadastral_number) ∷ [])

  unfoldable pub get_encumbrance_pda : Address → Address → Outcome (Address × ℕ)
  get_encumbrance_pda parcel_pda lender = do
    parcel_bytes ← kit.address_encode parcel_pda
    lender_bytes ← kit.address_encode lender
    kit.find_pda lien_registry_program_id
        (text_seed (text "encumbrance") ∷ bytes_seed parcel_bytes ∷ bytes_seed lender_bytes ∷ [])

  unfoldable pub get_lien_index_pda : Address → Outcome (Address × ℕ)
  get_lien_index_pda parcel_pda = do
    parcel_bytes ← kit.address_encode parcel_pda
    kit.find_pda lien_registry_program_id
        (text_seed (text "lien_index") ∷ bytes_seed parcel_bytes ∷ [])

  unfoldable pub build_register_parcel_instruction :
      Address → Text → ℕ → ℕ → Bytes → Outcome Instruction
  build_register_parcel_instruction owner cadastral_number area_ha land_class egiss_snapshot_hash =
      do
        (parcel_pda, _) ← get_parcel_pda cadastral_number
        cadastral ← encode_string cadastral_number
        area ← encode_u32_le area_ha
        bytes ← concat_bytes (
            register_parcel_discriminator
            ∷ cadastral
            ∷ area
            ∷ ((land_class % 256) ∷ [])
            ∷ egiss_snapshot_hash
            ∷ [])
        ok (record {
          program_address = terra_token_program_id;
          accounts =
              record { address = parcel_pda; role = writable }
              ∷ record { address = owner; role = writable_signer }
              ∷ record { address = system_program; role = readonly }
              ∷ [];
          data' = bytes;
        })

  unfoldable pub build_mint_certificate_instruction :
      Address → Text → Text → ℕ → Outcome Instruction
  build_mint_certificate_instruction mint_authority cadastral_number season ndvi_score = do
    (parcel_pda, _) ← get_parcel_pda cadastral_number
    cadastral ← encode_string cadastral_number
    season_bytes ← encode_string season
    score ← encode_u16_le ndvi_score
    bytes ← concat_bytes (mint_certificate_discriminator ∷ cadastral ∷ season_bytes ∷ score ∷ [])
    ok (record {
      program_address = terra_token_program_id;
      accounts =
          record { address = parcel_pda; role = writable }
          ∷ record { address = mint_authority; role = readonly_signer }
          ∷ [];
      data' = bytes;
    })

  unfoldable pub build_seasonal_check_instruction : Address → Text → Outcome Instruction
  build_seasonal_check_instruction keeper cadastral_number = do
    (parcel_pda, _) ← get_parcel_pda cadastral_number
    cadastral ← encode_string cadastral_number
    bytes ← concat_bytes (seasonal_check_discriminator ∷ cadastral ∷ [])
    ok (record {
      program_address = terra_token_program_id;
      accounts =
          record { address = parcel_pda; role = writable }
          ∷ record { address = keeper; role = readonly_signer }
          ∷ [];
      data' = bytes;
    })

  unfoldable pub build_verify_parcel_instruction : Text → Outcome Instruction
  build_verify_parcel_instruction cadastral_number = do
    (parcel_pda, _) ← get_parcel_pda cadastral_number
    cadastral ← encode_string cadastral_number
    bytes ← concat_bytes (verify_parcel_discriminator ∷ cadastral ∷ [])
    ok (record {
      program_address = terra_token_program_id;
      accounts = record { address = parcel_pda; role = readonly } ∷ [];
      data' = bytes;
    })
