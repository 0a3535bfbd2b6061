-- ===== src/Accounts/Layout.antt =====
-- How the on-chain programs store their accounts: eight bytes of discriminator, then the fields of
-- the struct in Borsh form, one after the other
-- (contracts/programs/terra_token/src/state/parcel.rs,
-- contracts/programs/lien_registry/src/state/encumbrance.rs and lien_index.rs).
use terra_ledger.Base.{ℕ, ◌<◌, ◌^◌, ◌≡◌, List, [], ◌∷◌, ◌++◌, length, flatten, Bool, true, false}
use terra_ledger.Accounts.{EncumbranceStatus, active, released, disputed}
use terra_ledger.Bytes.{Bytes, le_bytes, ℤ, of_i64, IsI64}

-- A `Pubkey` is its 32 bytes, and a `String` its UTF-8 bytes.
pub record ParcelConfig : Type 0 where
  pub owner : Bytes
  pub mint_authority : Bytes
  pub cadastral_str : Bytes
  pub area_ha : ℕ
  pub land_class : ℕ
  pub kyc_verified : Bool
  pub kyc_method : ℕ
  pub last_cert_epoch : ℕ
  pub cert_count : ℕ
  pub ndvi_submissions_this_season : ℕ
  pub dormant_seasons : ℕ
  pub egiss_snapshot_hash : Bytes
  pub risk_flag : ℕ
  pub registered_at : ℤ
  pub bump : ℕ
  pub ai_score : ℕ
  pub collateral_grade : ℕ
  pub recommended_ltv : ℕ

pub record EncumbranceAccount : Type 0 where
  pub parcel_pda : Bytes
  pub lender : Bytes
  pub amount : ℕ
  pub notary_sig_hash : Bytes
  pub notary_cert_hash : Bytes
  pub egiss_snapshot_hash : Bytes
  pub registered_at : ℤ
  pub released_at : ℤ
  pub status : ℕ
  pub bump : ℕ

pub record LienIndex : Type 0 where
  pub parcel_pda : Bytes
  pub active_lien_count : ℕ
  pub total_lien_count : ℕ
  pub bump : ℕ

-- The status byte: 0=Active, 1=Released, 2=Disputed.
abbrev pub status_code : EncumbranceStatus → ℕ
status_code active = 0
status_code released = 1
status_code disputed = 2

abbrev pub bool_byte : Bool → ℕ
bool_byte true = 1
bool_byte false = 0

abbrev pub byte : ℕ → Bytes
byte b = b ∷ []

-- The fields in order. A string is two of them, its length and its bytes.
abbrev pub parcel_config_fields : ParcelConfig → List Bytes
parcel_config_fields p =
    p.owner
    ∷ p.mint_authority
    ∷ le_bytes 4 (length p.cadastral_str)
    ∷ p.cadastral_str
    ∷ le_bytes 4 p.area_ha
    ∷ byte p.land_class
    ∷ byte (bool_byte p.kyc_verified)
    ∷ byte p.kyc_method
    ∷ le_bytes 8 p.last_cert_epoch
    ∷ le_bytes 2 p.cert_count
    ∷ byte p.ndvi_submissions_this_season
    ∷ byte p.dormant_seasons
    ∷ p.egiss_snapshot_hash
    ∷ byte p.risk_flag
    ∷ le_bytes 8 (of_i64 p.registered_at)
    ∷ byte p.bump
    ∷ byte p.ai_score
    ∷ byte p.collateral_grade
    ∷ le_bytes 2 p.recommended_ltv
    ∷ []

abbrev pub encumbrance_fields : EncumbranceAccount → List Bytes
encumbrance_fields e =
    e.parcel_pda
    ∷ e.lender
    ∷ le_bytes 8 e.amount
    ∷ e.notary_sig_hash
    ∷ e.notary_cert_hash
    ∷ e.egiss_snapshot_hash
    ∷ le_bytes 8 (of_i64 e.registered_at)
    ∷ le_bytes 8 (of_i64 e.released_at)
    ∷ byte e.status
    ∷ byte e.bump
    ∷ []

abbrev pub lien_index_fields : LienIndex → List Bytes
lien_index_fields l =
    l.parcel_pda ∷ byte l.active_lien_count ∷ le_bytes 2 l.total_lien_count ∷ byte l.bump ∷ []

-- An account's data, with whatever space is allocated behind the fields.
abbrev pub stored : Bytes → List Bytes → Bytes → Bytes
stored discriminator fields space = discriminator ++ (flatten fields ++ space)

-- What the types of the fields guarantee.
pub record IsParcelConfig (p : ParcelConfig) : Type 0 where
  pub owner_size : length p.owner ≡ 32
  pub mint_authority_size : length p.mint_authority ≡ 32
  pub cadastral_size : length p.cadastral_str < 2 ^ 32
  pub area_range : p.area_ha < 2 ^ 32
  pub epoch_range : p.last_cert_epoch < 2 ^ 64
  pub count_range : p.cert_count < 2 ^ 16
  pub hash_size : length p.egiss_snapshot_hash ≡ 32
  pub time_range : IsI64 p.registered_at

pub record IsEncumbrance (e : EncumbranceAccount) : Type 0 where
  pub parcel_size : length e.parcel_pda ≡ 32
  pub lender_size : length e.lender ≡ 32
  pub amount_range : e.amount < 2 ^ 64
  pub sig_size : length e.notary_sig_hash ≡ 32
  pub cert_size : length e.notary_cert_hash ≡ 32
  pub egiss_size : length e.egiss_snapshot_hash ≡ 32
  pub registered_range : IsI64 e.registered_at
  pub released_range : IsI64 e.released_at

pub record IsLienIndex (l : LienIndex) : Type 0 where
  pub parcel_size : length l.parcel_pda ≡ 32
  pub total_range : l.total_lien_count < 2 ^ 16
