-- ===== src/Chain/Parcels.antt =====
-- A changed or new parcel account leaves the accounts valid.
use mathlib.Core.Path.{subst}
use terra_ledger.Base.{
  ℕ, ◌≡◌, refl, sym, ap, ◌∙◌, arith, ◌≤◌, ◌<◌, ◌⊎◌, inl, inr, true, false, ◌&&◌, ◌==◌,
}
use terra_ledger.Base.{none, some, length, ltb, leb, if◌then◌else◌}
use terra_ledger.Bytes.{Bytes, bytes_eq}
use terra_ledger.Bytes.Equality.{bytes_eq_cases}
use terra_ledger.Accounts.Layout.{ParcelConfig}
use terra_ledger.Chain.{Store, put_parcel, Clock, returns, Attempt, put_at}
use terra_ledger.Chain.Valid.{IsParcel, IsValid}
use terra_ledger.Chain.Terra.{
  saturating_suc, new_parcel, flag_of, assess, close_season, certify, register_parcel,
  update_risk_assessment, seasonal_check, mint_certificate,
}
use terra_ledger.Chain.Accepts.{
  register_parcel-returns, update_risk_assessment-returns, seasonal_check-returns,
  mint_certificate-returns,
}

pub some_inj : {A : Type 0} (a b : A) → some a ≡ some b → a ≡ b
some_inj a b h = cc

-- Where a key of `put_at` leads: to the new value, or where it led before.
pub put_cases :
    {A : Type 0} (f : Bytes → A) (key : Bytes) (a : A) (k : Bytes)
    → ((k ≡ key) × (put_at f key a k ≡ a)) ⊎ ((bytes_eq k key ≡ false) × (put_at f key a k ≡ f k))
put_cases f key a k = elim (bytes_eq_cases k key) [
  | inl (t, e) ↦ inl (e, rw t refl)
  | inr t ↦ inr (t, rw t refl)
]

pub none-some : {A : Type 0} (a : A) → none ≡ some a → ⊥
none-some a h = cc

module _ (pda : Bytes → Bytes) (s : Store) (valid : IsValid pda s) (key : Bytes)
    (new : ParcelConfig) where
  -- Whatever parcel stood there, the new one is verified like it and has its EGISS hash.
  put_parcel-IsValid :
      IsParcel pda key new
      → ((p : ParcelConfig)
          → s.parcels key ≡ some p
          → (new.kyc_verified ≡ p.kyc_verified) × (new.egiss_snapshot_hash ≡ p.egiss_snapshot_hash))
      → IsValid pda (put_parcel s key new)
  put_parcel-IsValid good keeps = record {
    parcel_valid = λ k p h. elim (put_cases s.parcels key (some new) k) [
      | inl (here, e) ↦
          subst (λ q. IsParcel pda k q) (some_inj new p (sym e ∙ h))
            (subst (λ j. IsParcel pda j new) (sym here) good)
      | inr (_, e) ↦ valid.parcel_valid k p (sym e ∙ h)
    ];
    lien_valid = valid.lien_valid;
    backed = λ k who lien h.
        let (p, found, verified, hash) = valid.backed k who lien h in
        elim (put_cases s.parcels key (some new) k) [
          | inl (here, e) ↦
              let (same_kyc, same_hash) = keeps p (subst (λ j. s.parcels j ≡ some p) here found) in
              (new, e, same_kyc ∙ verified, same_hash ∙ hash)
          | inr (_, e) ↦ (p, e ∙ found, verified, hash)
        ];
    index_valid = valid.index_valid;
    counted = valid.counted;
    single = valid.single;
    held = valid.held;
  }

flag_of-le : (score flag : ℕ) → flag ≤ 1 → flag_of score flag ≤ 1
unfolding flag_of
flag_of-le score flag h = ground arith

dormant-le :
    (submissions dormant : ℕ)
    → dormant ≤ 255
    → (if submissions == 0 then saturating_suc dormant else 0) ≤ 255
unfolding saturating_suc
dormant-le submissions dormant h = ground arith

pub lt_of : (a b : ℕ) → ltb a b ≡ true → a < b
lt_of a b h = ground arith

le_of : (a b : ℕ) → leb a b ≡ true → a ≤ b
le_of a b h = ground arith

between : (n : ℕ) → (leb 1 n && leb n 8) ≡ true → (1 ≤ n) × (n ≤ 8)
between n h = ground arith

module _ (s : Store) where
  keeps_found :
      (key : Bytes) (old : ParcelConfig)
      → s.parcels key ≡ some old
      → (new : ParcelConfig) → new.kyc_verified ≡ old.kyc_verified
      → new.egiss_snapshot_hash ≡ old.egiss_snapshot_hash
      → (p : ParcelConfig) → s.parcels key ≡ some p
      → (new.kyc_verified ≡ p.kyc_verified) × (new.egiss_snapshot_hash ≡ p.egiss_snapshot_hash)
  keeps_found key old found new e1 e2 p here =
      let same = some_inj old p (sym found ∙ here) in
      (e1 ∙ ap (λ q. q.kyc_verified) same, e2 ∙ ap (λ q. q.egiss_snapshot_hash) same)

module _ (pda : Bytes → Bytes) (clock : Clock) (s : Store) (valid : IsValid pda s)
    {s' : Store} where
  pub register_parcel-IsValid :
      (owner : Bytes) (bump : ℕ) (cadastral : Bytes) (area class : ℕ) (egiss : Bytes)
      → register_parcel pda clock s owner bump cadastral area class egiss ≡ returns s'
      → IsValid pda s'
  unfolding new_parcel
  register_parcel-IsValid owner bump cadastral area class egiss h =
      let (fresh, short, positive, known, e) =
        register_parcel-returns pda clock s owner bump cadastral area class egiss h in
      let (low, high) = between class known in
      subst (IsValid pda) e (
        put_parcel-IsValid pda s valid (pda cadastral)
          (new_parcel owner clock bump cadastral area class egiss)
          (record {
            at_pda = refl;
            number_short = le_of (length cadastral) 20 short;
            area_positive = lt_of 0 area positive;
            class_low = low;
            class_high = high;
            score_range = omega arith;
            grade_range = omega arith;
            ltv_range = omega arith;
            flag_range = omega arith;
            dormant_range = omega arith;
            submissions_range = omega arith;
            count_range = omega arith;
          })
          λ p found. absurd (none-some p (sym fresh ∙ found)))

  pub update_risk_assessment-IsValid :
      (key authority cadastral : Bytes) (score grade ltv : ℕ)
      → update_risk_assessment pda clock s key authority cadastral score grade ltv ≡ returns s'
      → IsValid pda s'
  unfolding assess
  update_risk_assessment-IsValid key authority cadastral score grade ltv h =
      let (p, found, here, _, t1, t2, t3, e) =
        update_risk_assessment-returns pda clock s key authority cadastral score grade ltv h in
      let old = valid.parcel_valid key p found in
      subst (IsValid pda) e (
        put_parcel-IsValid pda s valid key (assess p score grade ltv)
          (record {
            at_pda = old.at_pda;
            number_short = old.number_short;
            area_positive = old.area_positive;
            class_low = old.class_low;
            class_high = old.class_high;
            score_range = le_of score 100 t1;
            grade_range = le_of grade 3 t2;
            ltv_range = le_of ltv 10000 t3;
            flag_range = flag_of-le score p.risk_flag old.flag_range;
            dormant_range = old.dormant_range;
            submissions_range = old.submissions_range;
            count_range = old.count_range;
          })
          (keeps_found s key p found (assess p score grade ltv) refl refl))

  pub seasonal_check-IsValid :
      (key cadastral : Bytes)
      → seasonal_check pda clock s key cadastral ≡ returns s'
      → IsValid pda s'
  unfolding close_season
  seasonal_check-IsValid key cadastral h =
      let (p, found, here, e) = seasonal_check-returns pda clock s key cadastral h in
      let old = valid.parcel_valid key p found in
      subst (IsValid pda) e (
        put_parcel-IsValid pda s valid key (close_season p)
          (record {
            at_pda = old.at_pda;
            number_short = old.number_short;
            area_positive = old.area_positive;
            class_low = old.class_low;
            class_high = old.class_high;
            score_range = old.score_range;
            grade_range = old.grade_range;
            ltv_range = old.ltv_range;
            flag_range = old.flag_range;
            dormant_range =
                dormant-le p.ndvi_submissions_this_season p.dormant_seasons old.dormant_range;
            submissions_range = omega arith;
            count_range = old.count_range;
          })
          (keeps_found s key p found (close_season p) refl refl))

  pub mint_certificate-IsValid :
      (token : Attempt Unit) (key owner mint_authority cadastral : Bytes)
      → mint_certificate pda clock s token key owner mint_authority cadastral ≡ returns s'
      → IsValid pda s'
  unfolding certify
  mint_certificate-IsValid token key owner mint_authority cadastral h =
      let (p, found, here, _, t1, t2, e) =
        mint_certificate-returns pda clock s token key owner mint_authority cadastral h in
      let old = valid.parcel_valid key p found in
      subst (IsValid pda) e (
        put_parcel-IsValid pda s valid key (certify p clock.slot)
          (record {
            at_pda = old.at_pda;
            number_short = old.number_short;
            area_positive = old.area_positive;
            class_low = old.class_low;
            class_high = old.class_high;
            score_range = old.score_range;
            grade_range = old.grade_range;
            ltv_range = old.ltv_range;
            flag_range = old.flag_range;
            dormant_range = old.dormant_range;
            submissions_range = omega (arith, lt_of p.ndvi_submissions_this_season 255 t2);
            count_range = omega (arith, lt_of p.cert_count 65535 t1);
          })
          (keeps_found s key p found (certify p clock.slot) refl refl))
