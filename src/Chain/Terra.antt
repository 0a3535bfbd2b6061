-- ===== src/Chain/Terra.antt =====
-- The handlers of contracts/programs/terra_token/src/instructions. `pda` gives the address that is
-- derived from a cadastral number; the accounts that the caller names are arguments.
use terra_ledger.Base.{ℕ, ◌+◌, ◌*◌, ◌^◌, length, true, ◌&&◌, ◌||◌, ◌==◌, ltb, leb, if◌then◌else◌}
use terra_ledger.Bytes.{Bytes, bytes_eq}
use terra_ledger.Accounts.Layout.{ParcelConfig}
use terra_ledger.Errors.Codes.{
  cadastral_too_long, parcel_not_verified, too_early, risk_flag_set, invalid_land_class,
  invalid_area, owner_mismatch, unauthorized_authority, invalid_ai_score, invalid_grade,
  invalid_ltv,
}
use terra_ledger.Chain.{
  Store, Attempt, returns, account_error, panicked, terra_error, ◌>>=◌, must, account, absent,
  put_parcel, Clock,
}

abbrev pub epochs_per_season : ℕ
epochs_per_season = 216000 * 90

abbrev pub max_cadastral_len : ℕ
max_cadastral_len = 20

-- `saturating_add(1)` on a `u8`
unfoldable pub saturating_suc : ℕ → ℕ
saturating_suc n = if ltb n 255 then n + 1 else 255

-- `ParcelConfig` as `register_parcel` fills it
unfoldable pub new_parcel : Bytes → Clock → ℕ → Bytes → ℕ → ℕ → Bytes → ParcelConfig
new_parcel owner clock bump cadastral area_ha land_class egiss = record {
  owner = owner;
  mint_authority = owner;
  cadastral_str = cadastral;
  area_ha = area_ha;
  land_class = land_class;
  kyc_verified = true;
  kyc_method = 1;
  last_cert_epoch = 0;
  cert_count = 0;
  ndvi_submissions_this_season = 0;
  dormant_seasons = 0;
  egiss_snapshot_hash = egiss;
  risk_flag = 0;
  registered_at = clock.unix_timestamp;
  bump = bump;
  ai_score = 0;
  collateral_grade = 3;
  recommended_ltv = 0;
}

-- the two conditional updates of the risk flag
unfoldable pub flag_of : ℕ → ℕ → ℕ
flag_of ai_score flag =
    let set = if ltb ai_score 20 && (flag == 0) then 1 else flag in
    if leb 40 ai_score && (set == 1) then 0 else set

unfoldable pub assess : ParcelConfig → ℕ → ℕ → ℕ → ParcelConfig
unfolding flag_of
assess p score grade ltv = record p {
  ai_score = score;
  collateral_grade = grade;
  recommended_ltv = ltv;
  risk_flag = flag_of score p.risk_flag;
}

unfoldable pub close_season : ParcelConfig → ParcelConfig
unfolding saturating_suc
close_season p = record p {
  dormant_seasons =
      if p.ndvi_submissions_this_season == 0 then saturating_suc p.dormant_seasons else 0;
  ndvi_submissions_this_season = 0;
}

unfoldable pub certify : ParcelConfig → ℕ → ParcelConfig
certify p slot = record p {
  last_cert_epoch = slot;
  cert_count = p.cert_count + 1;
  ndvi_submissions_this_season = p.ndvi_submissions_this_season + 1;
}

module _ (pda : Bytes → Bytes) (clock : Clock) (s : Store) where
  unfoldable pub register_parcel : Bytes → ℕ → Bytes → ℕ → ℕ → Bytes → Attempt Store
  unfolding new_parcel
  register_parcel owner bump cadastral area_ha land_class egiss = do
    _ ← absent (s.parcels (pda cadastral))
    _ ← must (leb (length cadastral) max_cadastral_len) (terra_error cadastral_too_long)
    _ ← must (ltb 0 area_ha) (terra_error invalid_area)
    _ ← must (leb 1 land_class && leb land_class 8) (terra_error invalid_land_class)
    returns (
        put_parcel s (pda cadastral)
          (new_parcel owner clock bump cadastral area_ha land_class egiss))

  -- The account of the call must be at the address that the cadastral number gives.
  unfoldable pub parcel_of : Bytes → Bytes → Attempt ParcelConfig
  parcel_of key cadastral = do
    p ← account (s.parcels key)
    _ ← must (bytes_eq key (pda cadastral)) account_error
    returns p

  unfoldable pub update_risk_assessment : Bytes → Bytes → Bytes → ℕ → ℕ → ℕ → Attempt Store
  unfolding parcel_of assess
  update_risk_assessment key authority cadastral ai_score collateral_grade recommended_ltv = do
    p ← parcel_of key cadastral
    _ ← must (bytes_eq authority p.mint_authority) (terra_error unauthorized_authority)
    _ ← must (leb ai_score 100) (terra_error invalid_ai_score)
    _ ← must (leb collateral_grade 3) (terra_error invalid_grade)
    _ ← must (leb recommended_ltv 10000) (terra_error invalid_ltv)
    returns (put_parcel s key (assess p ai_score collateral_grade recommended_ltv))

  -- The sum of two `u64` panics where it overflows.
  unfoldable pub seasonal_check : Bytes → Bytes → Attempt Store
  unfolding parcel_of close_season
  seasonal_check key cadastral = do
    p ← parcel_of key cadastral
    _ ←
        must ((p.last_cert_epoch == 0) || ltb (p.last_cert_epoch + epochs_per_season) (2 ^ 64))
          panicked
    _ ←
        must ((p.last_cert_epoch == 0) || leb (p.last_cert_epoch + epochs_per_season) clock.slot)
          (terra_error too_early)
    returns (put_parcel s key (close_season p))

  -- `token` is what the calls of Token-2022 and of the associated-token program come to.
  unfoldable pub mint_certificate : Attempt Unit → Bytes → Bytes → Bytes → Bytes → Attempt Store
  unfolding parcel_of certify
  mint_certificate token key owner mint_authority cadastral = do
    p ← parcel_of key cadastral
    _ ← must (bytes_eq p.mint_authority mint_authority) account_error
    _ ← must p.kyc_verified (terra_error parcel_not_verified)
    _ ← must (p.risk_flag == 0) (terra_error risk_flag_set)
    _ ← must (bytes_eq p.owner owner) (terra_error owner_mismatch)
    _ ← token
    _ ← must (ltb p.cert_count 65535) panicked
    _ ← must (ltb p.ndvi_submissions_this_season 255) panicked
    returns (put_parcel s key (certify p clock.slot))
