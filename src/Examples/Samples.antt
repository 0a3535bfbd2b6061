-- ===== src/Examples/Samples.antt =====
-- Data for the examples: the parcel KZ1, and addresses made of 32 equal bytes.
use terra_ledger.Base.{arith, ℕ, ◌≡◌, refl, [], ◌∷◌, replicate, ok, Text, text, true}
use terra_ledger.Bytes.{Bytes, zeros, pos}
use terra_ledger.Platform.{Address}
use terra_ledger.Platform.Sample.{sample}
use terra_ledger.Program.{get_parcel_pda, get_encumbrance_pda, get_lien_index_pda}
use terra_ledger.Accounts.Layout.{IsParcelConfig, IsEncumbrance, IsLienIndex}
use terra_ledger.Accounts.Layout.{ParcelConfig, EncumbranceAccount, LienIndex}

abbrev pub kz1 : Text
kz1 = text "KZ1"

abbrev pub thirty_two : ℕ → Bytes
thirty_two b = replicate 32 b

abbrev pub farmer : Address
farmer = thirty_two 9

abbrev pub lender : Address
lender = thirty_two 8

-- The address that `sample` derives for the parcel.
abbrev pub kz1_pda : Address
kz1_pda =
    112 ∷ 0 ∷ 97 ∷ 0 ∷ 114 ∷ 0 ∷ 99 ∷ 0 ∷ 101 ∷ 0 ∷ 108 ∷ 0 ∷ 75 ∷ 0 ∷ 90 ∷ 0 ∷ 49 ∷ 0 ∷ zeros 14

pub kz1-derived : get_parcel_pda sample kz1 ≡ ok (kz1_pda, 255)
unfolding get_parcel_pda sample
kz1-derived = refl

-- The text of the seed fills 22 bytes, and ten bytes of the parcel's address are left.
abbrev pub lien_pda : Address
lien_pda =
    101 ∷ 0 ∷ 110 ∷ 0 ∷ 99 ∷ 0 ∷ 117 ∷ 0 ∷ 109 ∷ 0 ∷ 98 ∷ 0 ∷ 114 ∷ 0 ∷ 97 ∷ 0 ∷ 110 ∷ 0 ∷ 99 ∷ 0
    ∷ 101 ∷ 0 ∷ 112 ∷ 0 ∷ 97 ∷ 0 ∷ 114 ∷ 0 ∷ 99 ∷ 0 ∷ 101 ∷ 0 ∷ []

pub lien-derived : get_encumbrance_pda sample kz1_pda lender ≡ ok (lien_pda, 255)
unfolding get_encumbrance_pda sample
lien-derived = refl

abbrev pub index_pda : Address
index_pda =
    108 ∷ 0 ∷ 105 ∷ 0 ∷ 101 ∷ 0 ∷ 110 ∷ 0 ∷ 95 ∷ 0 ∷ 105 ∷ 0 ∷ 110 ∷ 0 ∷ 100 ∷ 0 ∷ 101 ∷ 0 ∷ 120 ∷ 0
    ∷ 112 ∷ 0 ∷ 97 ∷ 0 ∷ 114 ∷ 0 ∷ 99 ∷ 0 ∷ 101 ∷ 0 ∷ 108 ∷ 0 ∷ []

pub index-derived : get_lien_index_pda sample kz1_pda ≡ ok (index_pda, 255)
unfolding get_lien_index_pda sample
index-derived = refl

abbrev pub kz1_parcel : ParcelConfig
kz1_parcel = record {
  owner = farmer;
  mint_authority = farmer;
  cadastral_str = 75 ∷ 0 ∷ 90 ∷ 0 ∷ 49 ∷ 0 ∷ [];
  area_ha = 4530;
  land_class = 2;
  kyc_verified = true;
  kyc_method = 1;
  last_cert_epoch = 19440000;
  cert_count = 3;
  ndvi_submissions_this_season = 1;
  dormant_seasons = 0;
  egiss_snapshot_hash = thirty_two 171;
  risk_flag = 0;
  registered_at = pos 1760000000;
  bump = 255;
  ai_score = 0;
  collateral_grade = 3;
  recommended_ltv = 0;
}

abbrev pub kz1_lien : EncumbranceAccount
kz1_lien = record {
  parcel_pda = kz1_pda;
  lender = lender;
  amount = 15000000;
  notary_sig_hash = thirty_two 205;
  notary_cert_hash = thirty_two 239;
  egiss_snapshot_hash = thirty_two 171;
  registered_at = pos 1760000000;
  released_at = pos 0;
  status = 0;
  bump = 255;
}

abbrev pub kz1_index : LienIndex
kz1_index = record { parcel_pda = kz1_pda; active_lien_count = 1; total_lien_count = 1; bump = 255 }

pub kz1_parcel-IsParcelConfig : IsParcelConfig kz1_parcel
kz1_parcel-IsParcelConfig = omega arith

pub kz1_lien-IsEncumbrance : IsEncumbrance kz1_lien
kz1_lien-IsEncumbrance = omega arith

pub kz1_index-IsLienIndex : IsLienIndex kz1_index
kz1_index-IsLienIndex = omega arith
