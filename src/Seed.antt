-- ===== src/Seed.antt =====
-- contracts/scripts/seed.ts, which seeds a cluster, against the handlers of Chain: every transaction
-- that it sends is executed. `shows` is what `err.toString()` says of a failure, `token` what the calls
-- of other programs come to when a certificate is minted, and `lender` the key pair that a run makes.
pub mod Again
use terra_ledger.Base.{ℕ, List, [], ◌∷◌, map, ◌++◌, replicate, includes, if◌then◌else◌, Text, text}
use terra_ledger.Bytes.{Bytes}
use terra_ledger.Platform.{Kit}
use terra_ledger.Chain.{Store, Attempt, returns, fails, Failure, Clock}
use terra_ledger.Chain.Terra.{register_parcel, mint_certificate}
use terra_ledger.Chain.Lien.{register_encumbrance}

pub record Certificate : Type 0 where
  pub season : Text
  pub ndvi_score : ℕ

pub record ParcelSeed : Type 0 where
  pub cadastral : Text
  pub area_ha : ℕ
  pub land_class : ℕ
  pub certificates : List Certificate

abbrev certificate : Text → ℕ → Certificate
certificate season ndvi_score = record { season = season; ndvi_score = ndvi_score }

abbrev parcel_seed : Text → ℕ → ℕ → List Certificate → ParcelSeed
parcel_seed cadastral area_ha land_class certificates = record {
  cadastral = cadastral;
  area_ha = area_ha;
  land_class = land_class;
  certificates = certificates;
}

abbrev pub parcels : List ParcelSeed
parcels =
    parcel_seed (text "KZ11-0033-001") 4530 2 (
      certificate (text "2025-Q3") 760
      ∷ certificate (text "2025-Q4") 740
      ∷ certificate (text "2026-Q1") 780
      ∷ [])
    ∷ parcel_seed (text "KZ11-0033-002") 2100 1
        (certificate (text "2025-Q3") 680 ∷ certificate (text "2025-Q4") 720 ∷ [])
    ∷ parcel_seed (text "KZ11-0033-003") 8750 3 (
        certificate (text "2025-Q3") 820
        ∷ certificate (text "2025-Q4") 790
        ∷ certificate (text "2026-Q1") 810
        ∷ [])
    ∷ parcel_seed (text "KZ11-0033-004") 1200 5
        (certificate (text "2025-Q4") 650 ∷ certificate (text "2026-Q1") 670 ∷ [])
    ∷ parcel_seed (text "KZ11-0033-005") 6300 2 (
        certificate (text "2025-Q3") 750
        ∷ certificate (text "2025-Q4") 770
        ∷ certificate (text "2026-Q1") 760
        ∷ [])
    ∷ []

abbrev pub egiss_hash : Bytes
egiss_hash = replicate 32 0xab

abbrev pub notary_sig_hash : Bytes
notary_sig_hash = replicate 32 0xcd

abbrev pub notary_cert_hash : Bytes
notary_cert_hash = replicate 32 0xef

-- The line that is printed for a transaction: `[OK]`, `[SKIP]` or `[ERR]`.
pub data Line : Type 0 where
  ok_line skip_line err_line : Line

-- the `try` and its `catch`, with and without the branch for an account that is there already
unfoldable pub sent_or_skipped : (Failure → Text) → Attempt Store → Store → Store × Line
sent_or_skipped shows (returns s') s = (s', ok_line)
sent_or_skipped shows (fails failure) s =
    (s, if includes (shows failure) (text "already in use") then skip_line else err_line)

unfoldable pub sent_or_failed : Attempt Store → Store → Store × Line
sent_or_failed (returns s') s = (s', ok_line)
sent_or_failed (fails failure) s = (s, err_line)

module _ (kit : Kit) (pda : Bytes → Bytes) (clock : Clock) (bump : Bytes → ℕ)
    (shows : Failure → Text) (token : Text → Certificate → Attempt Unit) (farmer : Bytes) where
  unfoldable pub register_one : ParcelSeed → Store → Store × Line
  unfolding sent_or_skipped
  register_one parcel s =
      let number = kit.utf8_encode parcel.cadastral in
      sent_or_skipped shows
        (register_parcel pda clock s farmer (bump (pda number)) number parcel.area_ha
          parcel.land_class egiss_hash)
        s

  -- 1. Register parcels
  unfoldable pub register_parcels : List ParcelSeed → Store → Store × List Line
  unfolding register_one
  register_parcels [] s = (s, [])
  register_parcels (parcel ∷ rest) s =
      let (s1, line) = register_one parcel s in
      let (s2, lines) = register_parcels rest s1 in (s2, line ∷ lines)

  unfoldable pub mint_one : ParcelSeed → Certificate → Store → Store × Line
  unfolding sent_or_failed
  mint_one parcel cert s =
      let number = kit.utf8_encode parcel.cadastral in
      sent_or_failed
        (mint_certificate pda clock s (token parcel.cadastral cert) (pda number) farmer farmer
          number)
        s

  unfoldable pub mint_each : ParcelSeed → List Certificate → Store → Store × List Line
  unfolding mint_one
  mint_each parcel [] s = (s, [])
  mint_each parcel (cert ∷ certs) s =
      let (s1, line) = mint_one parcel cert s in
      let (s2, lines) = mint_each parcel certs s1 in (s2, line ∷ lines)

  -- 2. Mint NDVI certificates
  unfoldable pub mint_certificates : List ParcelSeed → Store → Store × List Line
  unfolding mint_each
  mint_certificates [] s = (s, [])
  mint_certificates (parcel ∷ rest) s =
      let (s1, lines1) = mint_each parcel parcel.certificates s in
      let (s2, lines2) = mint_certificates rest s1 in (s2, lines1 ++ lines2)

  -- 3. Register lien on parcel 001
  unfoldable pub register_lien : Bytes → Store → Store × Line
  unfolding sent_or_skipped
  register_lien lender s =
      let number = kit.utf8_encode (text "KZ11-0033-001") in
      sent_or_skipped shows
        (register_encumbrance pda clock s (pda number) lender (bump lender) (bump (pda number))
          number 15000000 notary_sig_hash notary_cert_hash)
        s

  unfoldable pub seed : Bytes → Store → Store × List Line
  unfolding register_parcels mint_certificates register_lien
  seed lender s =
      let (s1, registered) = register_parcels parcels s in
      let (s2, minted) = mint_certificates parcels s1 in
      let (s3, pledged) = register_lien lender s2 in (s3, registered ++ (minted ++ (pledged ∷ [])))
