-- ===== src/Seed/Again.antt =====
-- Running the script again.
use terra_ledger.Base.{
  ℕ, ◌≡◌, ◌≢◌, refl, sym, ap, ◌∙◌, arith, ◌≤◌, ◌<◌, inl, inr, true, false, leb, ltb,
}
use terra_ledger.Base.{
  List, [], ◌∷◌, map, All, length, includes, none, some, Option-cases, Text, text,
}
use terra_ledger.Bytes.{Bytes}
use terra_ledger.Platform.{Kit}
use terra_ledger.Accounts.Layout.{ParcelConfig, EncumbranceAccount}
use terra_ledger.Errors.Codes.{active_lien_exists}
use terra_ledger.Chain.{Store, Attempt, Failure, account_error, lien_error, Clock, put_parcel}
use terra_ledger.Chain.Parcels.{put_cases, none-some}
use terra_ledger.Chain.Pledges.{put_same}
use terra_ledger.Chain.Terra.{register_parcel, new_parcel}
use terra_ledger.Chain.Reach.{Reachable}
use terra_ledger.Chain.Exclusive.{register_encumbrance_pledged}
use terra_ledger.Seed.{
  ParcelSeed, Certificate, skip_line, err_line, egiss_hash, sent_or_skipped, register_one,
  register_parcels, register_lien, notary_sig_hash, notary_cert_hash,
}

-- A seed that `register_parcel` accepts.
pub record IsSeed (kit : Kit) (parcel : ParcelSeed) : Type 0 where
  pub number_short : length (kit.utf8_encode parcel.cadastral) ≤ 20
  pub area_positive : 0 < parcel.area_ha
  pub class_low : 1 ≤ parcel.land_class
  pub class_high : parcel.land_class ≤ 8

ltb-true : (a b : ℕ) → a < b → ltb a b ≡ true
ltb-true a b h = ground arith

leb-true : (a b : ℕ) → a ≤ b → leb a b ≡ true
leb-true a b h = ground arith

module _ (kit : Kit) (pda : Bytes → Bytes) (clock : Clock) (bump : Bytes → ℕ)
    (shows : Failure → Text) (token : Text → Certificate → Attempt Unit) (farmer : Bytes) where
  abbrev key_for : ParcelSeed → Bytes
  key_for parcel = pda (kit.utf8_encode parcel.cadastral)

  -- what the script registers
  abbrev seeded : ParcelSeed → ParcelConfig
  unfolding new_parcel
  seeded parcel =
      new_parcel farmer clock (bump (key_for parcel)) (kit.utf8_encode parcel.cadastral)
        parcel.area_ha parcel.land_class egiss_hash

  register_one_new :
      (parcel : ParcelSeed) (s : Store)
      → IsSeed kit parcel
      → s.parcels (key_for parcel) ≡ none
      → (register_one kit pda clock bump shows token farmer parcel s).0
        ≡ put_parcel s (key_for parcel) (seeded parcel)
  unfolding register_one register_parcel sent_or_skipped seeded
  register_one_new parcel s good fresh =
      rw
        (
          fresh,
          leb-true (length (kit.utf8_encode parcel.cadastral)) 20 good.number_short,
          ltb-true 0 parcel.area_ha good.area_positive,
          leb-true 1 parcel.land_class good.class_low,
          leb-true parcel.land_class 8 good.class_high,
        )
        refl

  register_one_old :
      (parcel : ParcelSeed) (s : Store) (c : ParcelConfig)
      → s.parcels (key_for parcel) ≡ some c
      → includes (shows account_error) (text "already in use") ≡ true
      → register_one kit pda clock bump shows token farmer parcel s ≡ (s, skip_line)
  unfolding register_one register_parcel sent_or_skipped
  register_one_old parcel s c there named = rw (there, named) refl

  -- There is an account at the parcel's address.
  abbrev pub Held : Store → ParcelSeed → Type 0
  Held s parcel = (c : ParcelConfig) × (s.parcels (key_for parcel) ≡ some c)

  register_one_same :
      (parcel : ParcelSeed) (s : Store) (c : ParcelConfig)
      → s.parcels (key_for parcel) ≡ some c
      → (register_one kit pda clock bump shows token farmer parcel s).0 ≡ s
  unfolding register_one register_parcel sent_or_skipped
  register_one_same parcel s c there = rw there refl

  register_one-Held :
      (parcel : ParcelSeed) (s : Store)
      → IsSeed kit parcel
      → Held (register_one kit pda clock bump shows token farmer parcel s).0 parcel
  register_one-Held parcel s good = elim (Option-cases (s.parcels (key_for parcel))) [
    | inl fresh ↦ (
      seeded parcel,
      ap (λ (t : Store). t.parcels (key_for parcel)) (register_one_new parcel s good fresh)
          ∙ put_same s.parcels (key_for parcel) (some (seeded parcel)),
    )
    | inr (c, there) ↦ (
      c,
      ap (λ (t : Store). t.parcels (key_for parcel)) (register_one_same parcel s c there) ∙ there,
    )
  ]

  register_one_keeps :
      (parcel : ParcelSeed) (s : Store) (k : Bytes) (c : ParcelConfig)
      → IsSeed kit parcel
      → s.parcels k ≡ some c
      → (register_one kit pda clock bump shows token farmer parcel s).0.parcels k ≡ some c
  register_one_keeps parcel s k c good there = elim (Option-cases (s.parcels (key_for parcel))) [
    | inl fresh ↦
        ap (λ (t : Store). t.parcels k) (register_one_new parcel s good fresh)
        ∙ elim (put_cases s.parcels (key_for parcel) (some (seeded parcel)) k) [
          | inl (here, _) ↦ absurd (none-some c (sym fresh ∙ ap s.parcels (sym here) ∙ there))
          | inr (_, e) ↦ e ∙ there
        ]
    | inr (d, found) ↦ ap (λ (t : Store). t.parcels k) (register_one_same parcel s d found) ∙ there
  ]

  register_parcels_keeps :
      (seeds : List ParcelSeed) (s : Store) (k : Bytes) (c : ParcelConfig)
      → All (IsSeed kit) seeds
      → s.parcels k ≡ some c
      → (register_parcels kit pda clock bump shows token farmer seeds s).0.parcels k ≡ some c
  unfolding register_parcels
  register_parcels_keeps [] s k c good there = there
  register_parcels_keeps (parcel ∷ seeds) s k c (g, good) there =
      register_parcels_keeps seeds _ k c good (register_one_keeps parcel s k c g there)

  register_parcels-Held :
      (seeds : List ParcelSeed) (s : Store)
      → All (IsSeed kit) seeds
      → All (Held (register_parcels kit pda clock bump shows token farmer seeds s).0) seeds
  unfolding register_parcels
  register_parcels-Held [] s good = tt
  register_parcels-Held (parcel ∷ seeds) s (g, good) =
      let (c, there) = register_one-Held parcel s g in
      (
        (c, register_parcels_keeps seeds _ (key_for parcel) c good there),
        register_parcels-Held seeds _ good,
      )

  register_parcels_skips :
      (seeds : List ParcelSeed) (s : Store)
      → All (Held s) seeds
      → includes (shows account_error) (text "already in use") ≡ true
      → register_parcels kit pda clock bump shows token farmer seeds s
        ≡ (s, map (λ parcel. skip_line) seeds)
  unfolding register_parcels
  register_parcels_skips [] s held named = refl
  register_parcels_skips (parcel ∷ seeds) s ((c, there), held) named =
      rw (register_one_old parcel s c there named, register_parcels_skips seeds s held named) refl

  -- For seeds that `register_parcel` accepts, and whatever accounts there are, the first loop of the
  -- script leaves an account at the address of every parcel, and run again it leaves the accounts as
  -- they are and prints `[SKIP]` for each, where `err.toString()` says of an account that is there
  -- that it is already in use.
  pub register_parcels_again :
      (seeds : List ParcelSeed) (s : Store)
      → All (IsSeed kit) seeds
      → includes (shows account_error) (text "already in use") ≡ true
      → All (Held (register_parcels kit pda clock bump shows token farmer seeds s).0) seeds
        × (register_parcels kit pda clock bump shows token farmer seeds
              (register_parcels kit pda clock bump shows token farmer seeds s).0
            ≡ (
              (register_parcels kit pda clock bump shows token farmer seeds s).0,
              map (λ parcel. skip_line) seeds,
            ))
  register_parcels_again seeds s good named =
      let held = register_parcels-Held seeds s good in
      (held, register_parcels_skips seeds _ held named)

  -- Where the first parcel has a lien of anyone else than the lender that this run made, the script
  -- prints `[ERR]` for its lien and leaves the accounts as they are, unless `err.toString()` says of
  -- ActiveLienExists that something is already in use.
  pub register_lien_again :
      (s : Store)
      → Reachable pda s
      → (holder lender : Bytes) (e : EncumbranceAccount)
      → s.liens (pda (kit.utf8_encode (text "KZ11-0033-001"))) holder ≡ some e
      → lender ≢ holder
      → includes (shows (lien_error active_lien_exists)) (text "already in use") ≡ false
      → register_lien kit pda clock bump shows token farmer lender s ≡ (s, err_line)
  unfolding register_lien sent_or_skipped
  register_lien_again s reached holder lender e held other named =
      let number = kit.utf8_encode (text "KZ11-0033-001") in
      let (_, refused) =
        register_encumbrance_pledged pda clock s reached (pda number) holder e held lender
          (bump lender) (bump (pda number)) number 15000000 notary_sig_hash notary_cert_hash other
          refl (omega arith) in
      rw (refused, named) refl
