-- ===== src/Chain/Valid.antt =====
-- What holds of the accounts between transactions.
use terra_ledger.Base.{◌≡◌, ◌≤◌, ◌<◌, ◌⊎◌, true, some, length}
use terra_ledger.Bytes.{Bytes}
use terra_ledger.Accounts.Layout.{ParcelConfig, EncumbranceAccount, LienIndex}
use terra_ledger.Chain.{Store}

-- A parcel stands at the address of its number, and its fields are in the ranges that the handlers
-- check or that the comments of state/parcel.rs give.
pub record IsParcel (pda : Bytes → Bytes) (key : Bytes) (p : ParcelConfig) : Type 0 where
  pub at_pda : key ≡ pda p.cadastral_str
  pub number_short : length p.cadastral_str ≤ 20
  pub area_positive : 0 < p.area_ha
  pub class_low : 1 ≤ p.land_class
  pub class_high : p.land_class ≤ 8
  pub score_range : p.ai_score ≤ 100
  pub grade_range : p.collateral_grade ≤ 3
  pub ltv_range : p.recommended_ltv ≤ 10000
  pub flag_range : p.risk_flag ≤ 1
  pub dormant_range : p.dormant_seasons ≤ 255
  pub submissions_range : p.ndvi_submissions_this_season ≤ 255
  pub count_range : p.cert_count ≤ 65535

-- A lien says whose it is and of which parcel, is active, and is for more than nothing.
pub record IsLien (key who : Bytes) (e : EncumbranceAccount) : Type 0 where
  pub of_parcel : e.parcel_pda ≡ key
  pub of_lender : e.lender ≡ who
  pub is_active : e.status ≡ 0
  pub positive : 0 < e.amount

-- An index names its parcel and counts in the ranges of its types.
pub record IsIndex (key : Bytes) (i : LienIndex) : Type 0 where
  pub of_parcel : i.parcel_pda ≡ key
  pub at_most_one : i.active_lien_count ≤ 1
  pub in_total : i.active_lien_count ≤ i.total_lien_count
  pub total_range : i.total_lien_count ≤ 65535

pub record IsValid (pda : Bytes → Bytes) (s : Store) : Type 0 where
  pub parcel_valid : (key : Bytes) (p : ParcelConfig) → s.parcels key ≡ some p → IsParcel pda key p
  pub lien_valid :
      (key who : Bytes) (e : EncumbranceAccount) → s.liens key who ≡ some e → IsLien key who e
  -- the parcel of a lien is verified, and the lien has its EGISS hash
  pub backed :
      (key who : Bytes) (e : EncumbranceAccount)
      → s.liens key who ≡ some e
      → (p : ParcelConfig) × (s.parcels key ≡ some p)
        × (p.kyc_verified ≡ true)
        × (p.egiss_snapshot_hash ≡ e.egiss_snapshot_hash)
  pub index_valid : (key : Bytes) (i : LienIndex) → s.indices key ≡ some i → IsIndex key i
  -- a parcel with a lien has an index that counts it
  pub counted :
      (key who : Bytes) (e : EncumbranceAccount)
      → s.liens key who ≡ some e
      → (i : LienIndex) × (s.indices key ≡ some i) × (i.active_lien_count ≡ 1)
  -- no two lenders have a lien on one parcel
  pub single :
      (key w1 w2 : Bytes) (e1 e2 : EncumbranceAccount)
      → s.liens key w1 ≡ some e1
      → s.liens key w2 ≡ some e2
      → w1 ≡ w2
  -- what the index counts is there
  pub held :
      (key : Bytes) (i : LienIndex)
      → s.indices key ≡ some i
      → (i.active_lien_count ≡ 0)
        ⊎ ((who : Bytes) × (e : EncumbranceAccount) × (s.liens key who ≡ some e))
