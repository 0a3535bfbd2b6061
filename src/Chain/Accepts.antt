-- ===== src/Chain/Accepts.antt =====
-- What a handler has checked when it returns, and the accounts that it leaves.
use terra_ledger.Base.{
  ℕ, ◌≡◌, ap, ◌∙◌, true, none, some, ◌&&◌, ◌||◌, ◌==◌, ltb, leb, length, ◌+◌, ◌^◌,
}
use terra_ledger.Bytes.{Bytes, bytes_eq}
use terra_ledger.Bytes.Equality.{bytes_eq_sound}
use terra_ledger.Accounts.Layout.{ParcelConfig, EncumbranceAccount, LienIndex}
use terra_ledger.Chain.{Store, Attempt, returns, ◌>>=◌, put_parcel, put_lien, put_index, Clock}
use terra_ledger.Chain.Results.{bind-eq-returns, must-next, account-next, absent-next, returns_inj}
use terra_ledger.Chain.Terra.{
  parcel_of, register_parcel, update_risk_assessment, seasonal_check, mint_certificate, new_parcel,
  assess, close_season, certify, epochs_per_season,
}
use terra_ledger.Chain.Lien.{
  register_encumbrance, release_encumbrance, index_or_new, name_index, count_lien, uncount_lien,
  new_lien,
}

module _ (pda : Bytes → Bytes) (clock : Clock) (s : Store) where
  parcel_of-next :
      {B : Type 0} (key cadastral : Bytes) (f : ParcelConfig → Attempt B) {b : B}
      → (parcel_of pda clock s key cadastral >>= f) ≡ returns b
      → (p : ParcelConfig) × (s.parcels key ≡ some p) × (key ≡ pda cadastral) × (f p ≡ returns b)
  unfolding parcel_of
  parcel_of-next key cadastral f h =
      let (p, e, h1) = bind-eq-returns (parcel_of pda clock s key cadastral) f h in
      let (q, found, h2) = account-next (s.parcels key) _ e in
      let (same, h3) = must-next (bytes_eq key (pda cadastral)) _ _ h2 in
      (p, found ∙ ap some (returns_inj q p h3), bytes_eq_sound key (pda cadastral) same, h1)

  pub register_parcel-returns :
      {s' : Store} (owner : Bytes) (bump : ℕ) (cadastral : Bytes) (area class : ℕ) (egiss : Bytes)
      → register_parcel pda clock s owner bump cadastral area class egiss ≡ returns s'
      → (s.parcels (pda cadastral) ≡ none)
        × (leb (length cadastral) 20 ≡ true)
        × (ltb 0 area ≡ true)
        × ((leb 1 class && leb class 8) ≡ true)
        × (put_parcel s (pda cadastral) (new_parcel owner clock bump cadastral area class egiss)
            ≡ s')
  unfolding register_parcel
  register_parcel-returns owner bump cadastral area class egiss h =
      let (fresh, h1) = absent-next (s.parcels (pda cadastral)) _ h in
      let (short, h2) = must-next (leb (length cadastral) 20) _ _ h1 in
      let (positive, h3) = must-next (ltb 0 area) _ _ h2 in
      let (known, h4) = must-next (leb 1 class && leb class 8) _ _ h3 in
      (fresh, short, positive, known, returns_inj _ _ h4)

  pub update_risk_assessment-returns :
      {s' : Store} (key authority cadastral : Bytes) (score grade ltv : ℕ)
      → update_risk_assessment pda clock s key authority cadastral score grade ltv ≡ returns s'
      → (p : ParcelConfig) × (s.parcels key ≡ some p)
        × (key ≡ pda cadastral)
        × (authority ≡ p.mint_authority)
        × (leb score 100 ≡ true)
        × (leb grade 3 ≡ true)
        × (leb ltv 10000 ≡ true)
        × (put_parcel s key (assess p score grade ltv) ≡ s')
  unfolding update_risk_assessment
  update_risk_assessment-returns key authority cadastral score grade ltv h =
      let (p, found, here, h1) = parcel_of-next key cadastral _ h in
      let (signed, h2) = must-next (bytes_eq authority p.mint_authority) _ _ h1 in
      let (t1, h3) = must-next (leb score 100) _ _ h2 in
      let (t2, h4) = must-next (leb grade 3) _ _ h3 in
      let (t3, h5) = must-next (leb ltv 10000) _ _ h4 in
      (
        p,
        found,
        here,
        bytes_eq_sound authority p.mint_authority signed,
        t1,
        t2,
        t3,
        returns_inj _ _ h5,
      )

  pub seasonal_check-returns :
      {s' : Store} (key cadastral : Bytes)
      → seasonal_check pda clock s key cadastral ≡ returns s'
      → (p : ParcelConfig) × (s.parcels key ≡ some p)
        × (key ≡ pda cadastral)
        × (put_parcel s key (close_season p) ≡ s')
  unfolding seasonal_check
  seasonal_check-returns key cadastral h =
      let (p, found, here, h1) = parcel_of-next key cadastral _ h in
      let (_, h2) =
        must-next ((p.last_cert_epoch == 0) || ltb (p.last_cert_epoch + epochs_per_season) (2 ^ 64))
          _ _ h1 in
      let (_, h3) =
        must-next
          ((p.last_cert_epoch == 0) || leb (p.last_cert_epoch + epochs_per_season) clock.slot) _ _
          h2 in
      (p, found, here, returns_inj _ _ h3)

  pub mint_certificate-returns :
      {s' : Store} (token : Attempt Unit) (key owner mint_authority cadastral : Bytes)
      → mint_certificate pda clock s token key owner mint_authority cadastral ≡ returns s'
      → (p : ParcelConfig) × (s.parcels key ≡ some p)
        × (key ≡ pda cadastral)
        × ((p.risk_flag == 0) ≡ true)
        × (ltb p.cert_count 65535 ≡ true)
        × (ltb p.ndvi_submissions_this_season 255 ≡ true)
        × (put_parcel s key (certify p clock.slot) ≡ s')
  unfolding mint_certificate
  mint_certificate-returns token key owner mint_authority cadastral h =
      let (p, found, here, h1) = parcel_of-next key cadastral _ h in
      let (_, h2) = must-next (bytes_eq p.mint_authority mint_authority) _ _ h1 in
      let (_, h3) = must-next p.kyc_verified _ _ h2 in
      let (calm, h4) = must-next (p.risk_flag == 0) _ _ h3 in
      let (_, h5) = must-next (bytes_eq p.owner owner) _ _ h4 in
      let (_, _, h6) = bind-eq-returns token _ h5 in
      let (t1, h7) = must-next (ltb p.cert_count 65535) _ _ h6 in
      let (t2, h8) = must-next (ltb p.ndvi_submissions_this_season 255) _ _ h7 in
      (p, found, here, calm, t1, t2, returns_inj _ _ h8)

  pub register_encumbrance-returns :
      {s' : Store} (key lender : Bytes) (b1 b2 : ℕ) (cadastral : Bytes) (amount : ℕ)
      (sig cert : Bytes)
      → register_encumbrance pda clock s key lender b1 b2 cadastral amount sig cert ≡ returns s'
      → (s.liens key lender ≡ none)
        × ((p : ParcelConfig) × (s.parcels key ≡ some p)
            × (key ≡ pda cadastral)
            × (ltb 0 amount ≡ true)
            × (p.kyc_verified ≡ true)
            × (((index_or_new (s.indices key)).active_lien_count == 0) ≡ true)
            × (ltb (index_or_new (s.indices key)).total_lien_count 65535 ≡ true)
            × (put_index
                  (put_lien s key lender (some (new_lien p clock b1 key lender amount sig cert)))
                  key
                  (count_lien (name_index (index_or_new (s.indices key)) key b2))
                ≡ s'))
  unfolding register_encumbrance
  register_encumbrance-returns key lender b1 b2 cadastral amount sig cert h =
      let i : LienIndex = index_or_new (s.indices key) in
      let (fresh, h1) = absent-next (s.liens key lender) _ h in
      let (p, found, here, h2) = parcel_of-next key cadastral _ h1 in
      let (t1, h3) = must-next (ltb 0 amount) _ _ h2 in
      let (t2, h4) = must-next p.kyc_verified _ _ h3 in
      let (t3, h5) = must-next (i.active_lien_count == 0) _ _ h4 in
      let (_, h6) = must-next (ltb i.active_lien_count 255) _ _ h5 in
      let (t4, h7) = must-next (ltb i.total_lien_count 65535) _ _ h6 in
      (fresh, (p, found, here, t1, t2, t3, t4, returns_inj _ _ h7))

  pub release_encumbrance-returns :
      {s' : Store} (key lender : Bytes)
      → release_encumbrance pda clock s key lender ≡ returns s'
      → (e : EncumbranceAccount) × (s.liens key lender ≡ some e)
        × ((i : LienIndex) × (s.indices key ≡ some i)
            × (put_index (put_lien s key lender none) key (uncount_lien i) ≡ s'))
  unfolding release_encumbrance
  release_encumbrance-returns key lender h =
      let (e, held, h1) = account-next (s.liens key lender) _ h in
      let (_, h2) = must-next (bytes_eq e.lender lender) _ _ h1 in
      let (i, counted, h3) = account-next (s.indices key) _ h2 in
      let (_, _, h4) = account-next (s.parcels key) _ h3 in
      let (_, h5) = must-next (e.status == 0) _ _ h4 in (e, held, (i, counted, returns_inj _ _ h5))
