-- ===== src/Accounts.antt =====
-- The account decoders of web/src/solana/accounts.ts (sdk/src/accounts.ts has the same text).
-- An index behind the end of an array is `undefined`, here `none`; a `DataView` getter throws there.
pub mod Layout
pub mod Cursor
pub mod RoundTrip
pub mod Sizes
use terra_ledger.Base.{ℕ, zero, suc, ◌+◌, Bool, true, false, Option, none, some, get_elem?}
use terra_ledger.Base.{Outcome, ok, ◌>>=◌, Text}
use terra_ledger.Bytes.{Bytes, slice, get_uint, ℤ, to_i64}
use terra_ledger.Platform.{Address, Kit}

abbrev pub anchor_discriminator_size : ℕ
anchor_discriminator_size = 8

unfoldable pub read_u8 : Bytes → ℕ → Option ℕ
read_u8 data' offset = get_elem? data' offset

unfoldable pub read_u16_le : Bytes → ℕ → Outcome ℕ
read_u16_le data' offset = get_uint 2 data' offset

unfoldable pub read_u32_le : Bytes → ℕ → Outcome ℕ
read_u32_le data' offset = get_uint 4 data' offset

unfoldable pub read_u64_le : Bytes → ℕ → Outcome ℕ
read_u64_le data' offset = get_uint 8 data' offset

unfoldable pub read_i64_le : Bytes → ℕ → Outcome ℤ
read_i64_le data' offset = do w ← get_uint 8 data' offset; ok (to_i64 w)

-- `data[offset] !== 0`, true of `undefined`
abbrev pub differs_from_zero : Option ℕ → Bool
differs_from_zero none = true
differs_from_zero (some zero) = false
differs_from_zero (some (suc n)) = true

unfoldable pub read_bool : Bytes → ℕ → Bool
read_bool data' offset = differs_from_zero (get_elem? data' offset)

unfoldable pub read_bytes : Bytes → ℕ → ℕ → Bytes
read_bytes data' offset len = slice data' offset (offset + len)

pub record ParcelConfigAccount : Type 0 where
  pub owner : Address
  pub mint_authority : Address
  pub cadastral_str : Text
  pub area_ha : ℕ
  pub land_class : Option ℕ
  pub kyc_verified : Bool
  pub kyc_method : Option ℕ
  pub last_cert_epoch : ℕ
  pub cert_count : ℕ
  pub ndvi_submissions_this_season : Option ℕ
  pub dormant_seasons : Option ℕ
  pub egiss_snapshot_hash : Bytes
  pub risk_flag : Option ℕ
  pub registered_at : ℤ
  pub bump : Option ℕ

pub data EncumbranceStatus : Type 0 where
  active released disputed : EncumbranceStatus

pub record EncumbranceAccountData : Type 0 where
  pub parcel_pda : Address
  pub lender : Address
  pub amount : ℕ
  pub notary_sig_hash : Bytes
  pub notary_cert_hash : Bytes
  pub egiss_snapshot_hash : Bytes
  pub registered_at : ℤ
  pub released_at : ℤ
  pub status : EncumbranceStatus
  pub bump : Option ℕ

pub record LienIndexData : Type 0 where
  pub parcel_pda : Address
  pub active_lien_count : Option ℕ
  pub total_lien_count : ℕ
  pub bump : Option ℕ

-- `ENCUMBRANCE_STATUS_MAP[code] ?? 'Active'`
unfoldable pub encumbrance_status : Option ℕ → EncumbranceStatus
encumbrance_status none = active
encumbrance_status (some zero) = active
encumbrance_status (some (suc zero)) = released
encumbrance_status (some (suc (suc zero))) = disputed
encumbrance_status (some (suc (suc (suc n)))) = active

module _ (kit : Kit) where
  unfoldable pub read_address : Bytes → ℕ → Outcome Address
  read_address data' offset = kit.address_decode (slice data' offset (offset + 32))

  -- the string, and how many bytes it took
  unfoldable pub read_string : Bytes → ℕ → Outcome (Text × ℕ)
  read_string data' offset = do
    len ← read_u32_le data' offset
    ok (kit.utf8_decode (slice data' (offset + 4) (offset + 4 + len)), 4 + len)

  unfoldable pub deserialize_parcel_config : Bytes → Outcome ParcelConfigAccount
  deserialize_parcel_config data' = do
    owner ← read_address data' 8
    mint_authority ← read_address data' (8 + 32)
    (cadastral_str, str_size) ← read_string data' (8 + 32 + 32)
    let off = 8 + 32 + 32 + str_size
    area_ha ← read_u32_le data' off
    let land_class = read_u8 data' (off + 4)
    let kyc_verified = read_bool data' (off + 4 + 1)
    let kyc_method = read_u8 data' (off + 4 + 1 + 1)
    let off' = off + 4 + 1 + 1 + 1
    last_cert_epoch ← read_u64_le data' off'
    cert_count ← read_u16_le data' (off' + 8)
    let ndvi_submissions = read_u8 data' (off' + 8 + 2)
    let dormant_seasons = read_u8 data' (off' + 8 + 2 + 1)
    let egiss_snapshot_hash = read_bytes data' (off' + 8 + 2 + 1 + 1) 32
    let risk_flag = read_u8 data' (off' + 8 + 2 + 1 + 1 + 32)
    registered_at ← read_i64_le data' (off' + 8 + 2 + 1 + 1 + 32 + 1)
    let bump = read_u8 data' (off' + 8 + 2 + 1 + 1 + 32 + 1 + 8)
    ok (record {
      owner = owner;
      mint_authority = mint_authority;
      cadastral_str = cadastral_str;
      area_ha = area_ha;
      land_class = land_class;
      kyc_verified = kyc_verified;
      kyc_method = kyc_method;
      last_cert_epoch = last_cert_epoch;
      cert_count = cert_count;
      ndvi_submissions_this_season = ndvi_submissions;
      dormant_seasons = dormant_seasons;
      egiss_snapshot_hash = egiss_snapshot_hash;
      risk_flag = risk_flag;
      registered_at = registered_at;
      bump = bump;
    })

  unfoldable pub deserialize_encumbrance : Bytes → Outcome EncumbranceAccountData
  deserialize_encumbrance data' = do
    parcel_pda ← read_address data' 8
    lender ← read_address data' (8 + 32)
    amount ← read_u64_le data' (8 + 32 + 32)
    let notary_sig_hash = read_bytes data' (8 + 32 + 32 + 8) 32
    let notary_cert_hash = read_bytes data' (8 + 32 + 32 + 8 + 32) 32
    let egiss_snapshot_hash = read_bytes data' (8 + 32 + 32 + 8 + 32 + 32) 32
    registered_at ← read_i64_le data' (8 + 32 + 32 + 8 + 32 + 32 + 32)
    released_at ← read_i64_le data' (8 + 32 + 32 + 8 + 32 + 32 + 32 + 8)
    let status = encumbrance_status (read_u8 data' (8 + 32 + 32 + 8 + 32 + 32 + 32 + 8 + 8))
    let bump = read_u8 data' (8 + 32 + 32 + 8 + 32 + 32 + 32 + 8 + 8 + 1)
    ok (record {
      parcel_pda = parcel_pda;
      lender = lender;
      amount = amount;
      notary_sig_hash = notary_sig_hash;
      notary_cert_hash = notary_cert_hash;
      egiss_snapshot_hash = egiss_snapshot_hash;
      registered_at = registered_at;
      released_at = released_at;
      status = status;
      bump = bump;
    })

  unfoldable pub deserialize_lien_index : Bytes → Outcome LienIndexData
  deserialize_lien_index data' = do
    parcel_pda ← read_address data' 8
    let active_lien_count = read_u8 data' (8 + 32)
    total_lien_count ← read_u16_le data' (8 + 32 + 1)
    let bump = read_u8 data' (8 + 32 + 1 + 2)
    ok (record {
      parcel_pda = parcel_pda;
      active_lien_count = active_lien_count;
      total_lien_count = total_lien_count;
      bump = bump;
    })
