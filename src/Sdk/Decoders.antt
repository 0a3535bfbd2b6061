-- ===== src/Sdk/Decoders.antt =====
-- The decoders of sdk/src/accounts.ts. Its three interfaces have the fields of those of
-- web/src/solana/accounts.ts, and so are the same types.
use terra_ledger.Base.{◌+◌, Outcome, ok, ◌>>=◌}
use terra_ledger.Bytes.{Bytes}
use terra_ledger.Platform.{Kit}
use terra_ledger.Accounts.{ParcelConfigAccount, EncumbranceAccountData, LienIndexData}
use terra_ledger.Sdk.Readers.{
  read_u8, read_u16_le, read_u32_le, read_u64_le, read_i64_le, read_bool, read_bytes,
  encumbrance_status, read_address, read_string,
}

module _ (kit : Kit) where
  unfoldable pub deserialize_parcel_config : Bytes → Outcome ParcelConfigAccount
  deserialize_parcel_config data' = do
    owner ← read_address kit data' 8
    mint_authority ← read_address kit data' (8 + 32)
    (cadastral_str, str_size) ← read_string kit data' (8 + 32 + 32)
    let off = 8 + 32 + 32 + str_size
    area_ha ← read_u32_le data' off
    let land_class = read_u8 data' (off + 4)
    let kyc_verified = read_bool data' (off + 4 + 1)
    let kyc_method = read_u8 data' (off + 4 + 1 + 1)
    let off' = off + 4 + 1 + 1 + 1
    last_cert_epoch ← read_u64_le data' off'
    cert_count ← read_u16_le data' (off' + 8)
    let ndvi_submissions = read_u8 data' (off' + 8 + 2)
    let dormant_seasons = read_u8 data' (off' + 8 + 2 + 1)
    let egiss_snapshot_hash = read_bytes data' (off' + 8 + 2 + 1 + 1) 32
    let risk_flag = read_u8 data' (off' + 8 + 2 + 1 + 1 + 32)
    registered_at ← read_i64_le data' (off' + 8 + 2 + 1 + 1 + 32 + 1)
    let bump = read_u8 data' (off' + 8 + 2 + 1 + 1 + 32 + 1 + 8)
    ok (record {
      owner = owner;
      mint_authority = mint_authority;
      cadastral_str = cadastral_str;
      area_ha = area_ha;
      land_class = land_class;
      kyc_verified = kyc_verified;
      kyc_method = kyc_method;
      last_cert_epoch = last_cert_epoch;
      cert_count = cert_count;
      ndvi_submissions_this_season = ndvi_submissions;
      dormant_seasons = dormant_seasons;
      egiss_snapshot_hash = egiss_snapshot_hash;
      risk_flag = risk_flag;
      registered_at = registered_at;
      bump = bump;
    })

  unfoldable pub deserialize_encumbrance : Bytes → Outcome EncumbranceAccountData
  deserialize_encumbrance data' = do
    parcel_pda ← read_address kit data' 8
    lender ← read_address kit data' (8 + 32)
    amount ← read_u64_le data' (8 + 32 + 32)
    let notary_sig_hash = read_bytes data' (8 + 32 + 32 + 8) 32
    let notary_cert_hash = read_bytes data' (8 + 32 + 32 + 8 + 32) 32
    let egiss_snapshot_hash = read_bytes data' (8 + 32 + 32 + 8 + 32 + 32) 32
    registered_at ← read_i64_le data' (8 + 32 + 32 + 8 + 32 + 32 + 32)
    released_at ← read_i64_le data' (8 + 32 + 32 + 8 + 32 + 32 + 32 + 8)
    let status = encumbrance_status (read_u8 data' (8 + 32 + 32 + 8 + 32 + 32 + 32 + 8 + 8))
    let bump = read_u8 data' (8 + 32 + 32 + 8 + 32 + 32 + 32 + 8 + 8 + 1)
    ok (record {
      parcel_pda = parcel_pda;
      lender = lender;
      amount = amount;
      notary_sig_hash = notary_sig_hash;
      notary_cert_hash = notary_cert_hash;
      egiss_snapshot_hash = egiss_snapshot_hash;
      registered_at = registered_at;
      released_at = released_at;
      status = status;
      bump = bump;
    })

  unfoldable pub deserialize_lien_index : Bytes → Outcome LienIndexData
  deserialize_lien_index data' = do
    parcel_pda ← read_address kit data' 8
    let active_lien_count = read_u8 data' (8 + 32)
    total_lien_count ← read_u16_le data' (8 + 32 + 1)
    let bump = read_u8 data' (8 + 32 + 1 + 2)
    ok (record {
      parcel_pda = parcel_pda;
      active_lien_count = active_lien_count;
      total_lien_count = total_lien_count;
      bump = bump;
    })
