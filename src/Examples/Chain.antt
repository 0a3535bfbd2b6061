-- ===== src/Examples/Chain.antt =====
-- The on-chain handlers and the client on the parcel KZ1.
use terra_ledger.Base.{
  ◌≡◌, ◌≢◌, refl, arith, ◌%◌, ◌^◌, [], ◌∷◌, ok, none, some, ap, sym, length, Option,
}
use terra_ledger.Bytes.{Bytes, pos, le_bytes, zeros}
use terra_ledger.Platform.Sample.{sample, sample-Laws}
use terra_ledger.Program.{Instruction, lien_registry_program_id}
use terra_ledger.Program.Lien.{
  build_register_encumbrance_instruction, build_release_encumbrance_instruction,
}
use terra_ledger.Accounts.{active}
use terra_ledger.Accounts.Layout.{ParcelConfig, EncumbranceAccount, encumbrance_fields, stored}
use terra_ledger.Rpc.{encumbrance_discriminator, fetch_encumbrance}
use terra_ledger.Rpc.Ledger.{Account, Ledger, Serves}
use terra_ledger.Errors.Codes.{active_lien_exists}
use terra_ledger.Chain.{
  Store, empty_store, Clock, returns, fails, account_error, lien_error, hook_error, fraud_flagged,
  Failure, put_parcel, put_lien, put_index,
}
use terra_ledger.Chain.Terra.{
  register_parcel, new_parcel, parcel_of, update_risk_assessment, mint_certificate, assess, flag_of,
  close_season, seasonal_check,
}
use terra_ledger.Chain.Transfer.{execute}
use terra_ledger.Chain.Risk.{now_same, then_after, assessment_blocks}
use terra_ledger.Chain.Lien.{
  register_encumbrance, release_encumbrance, new_lien, count_lien, name_index, index_or_new,
  uncount_lien,
}
use terra_ledger.Chain.Pledges.{pledged}
use terra_ledger.Chain.Valid.{IsValid}
use terra_ledger.Chain.Reach.{
  Reachable, at_start, after, by_register_parcel, by_register_encumbrance, Reachable-IsValid,
  by_seasonal_check,
}
use terra_ledger.Chain.Exclusive.{register_encumbrance_pledged, register_encumbrance-release}
use terra_ledger.Chain.Execute.{encumbrance_at, lien_index_at, execute_lien}
use terra_ledger.Chain.Client.{execute_lien-build}
use terra_ledger.Chain.ReadBack.{fetch_encumbrance-register}
use terra_ledger.Examples.Rpc.{ledger_rpc, ledger_rpc-Serves}
use terra_ledger.Examples.Samples.{kz1, kz1_pda, farmer, lender, lien_pda, index_pda, thirty_two}

abbrev pub kz1_number : Bytes
kz1_number = 75 ∷ 0 ∷ 90 ∷ 0 ∷ 49 ∷ 0 ∷ []

-- Every number derives the address of KZ1, for the examples.
abbrev pub to_kz1 : Bytes → Bytes
to_kz1 cadastral = kz1_pda

abbrev hash_of : Option ParcelConfig → Bytes
hash_of none = []
hash_of (some p) = p.egiss_snapshot_hash

abbrev pub now : Clock
now = record { unix_timestamp = pos 1760000000; slot = 19440000 }

abbrev signature : Bytes
signature = thirty_two 205

abbrev certificate : Bytes
certificate = thirty_two 239

abbrev pub kz1_config : ParcelConfig
unfolding new_parcel
kz1_config = new_parcel farmer now 255 kz1_number 4530 2 (thirty_two 171)

abbrev pub with_parcel : Store
with_parcel = put_parcel empty_store kz1_pda kz1_config

registered :
    register_parcel to_kz1 now empty_store farmer 255 kz1_number 4530 2 (thirty_two 171)
    ≡ returns with_parcel
unfolding register_parcel
registered = refl

abbrev pub with_lien : Store
unfolding new_lien count_lien name_index
with_lien =
    pledged with_parcel kz1_pda lender
      (new_lien kz1_config now 255 kz1_pda lender 15000000 signature certificate)
      (count_lien (name_index (index_or_new none) kz1_pda 255))

pledge :
    register_encumbrance to_kz1 now with_parcel kz1_pda lender 255 255 kz1_number 15000000 signature
      certificate
    ≡ returns with_lien
unfolding register_encumbrance parcel_of kz1_config
pledge = refl

abbrev without_lien : Store
unfolding uncount_lien count_lien name_index
without_lien =
    put_index (put_lien with_lien kz1_pda lender none) kz1_pda
      (uncount_lien (count_lien (name_index (index_or_new none) kz1_pda 255)))

freed_again : release_encumbrance to_kz1 now with_lien kz1_pda lender ≡ returns without_lien
unfolding release_encumbrance with_lien
freed_again = refl

pub with_lien_reached : Reachable to_kz1 with_lien
with_lien_reached =
    after
      (after at_start
        (by_register_parcel now farmer 255 kz1_number 4530 2 (thirty_two 171) registered))
      (by_register_encumbrance now kz1_pda lender 255 255 kz1_number 15000000 signature certificate
        pledge)

Reachable-IsValid_example : IsValid to_kz1 with_lien
Reachable-IsValid_example = Reachable-IsValid to_kz1 with_lien with_lien_reached

abbrev pub held_lien : EncumbranceAccount
unfolding new_lien
held_lien = new_lien kz1_config now 255 kz1_pda lender 15000000 signature certificate

pub with_lien-held : with_lien.liens kz1_pda lender ≡ some held_lien
unfolding with_lien
with_lien-held = refl

pub not_lender : farmer ≢ lender
not_lender h = ground arith

register_encumbrance_pledged_example :
    (register_encumbrance to_kz1 now with_lien kz1_pda lender 255 255 kz1_number 1 signature
        certificate
      ≡ fails account_error)
    × (register_encumbrance to_kz1 now with_lien kz1_pda farmer 255 255 kz1_number 1 signature
          certificate
        ≡ fails (lien_error active_lien_exists))
unfolding with_lien
register_encumbrance_pledged_example =
    register_encumbrance_pledged to_kz1 now with_lien with_lien_reached kz1_pda lender held_lien
      refl farmer 255 255 kz1_number 1 signature certificate not_lender refl (omega arith)

register_encumbrance-release_example :
    (s : Store) × (register_encumbrance to_kz1 now without_lien kz1_pda farmer 255 255 kz1_number 1
        signature certificate
      ≡ returns s)
unfolding with_lien
register_encumbrance-release_example =
    register_encumbrance-release to_kz1 now with_lien with_lien_reached kz1_pda lender held_lien
      refl now without_lien freed_again farmer 255 255 kz1_number 1 signature certificate refl
      (omega arith) (omega arith)

pub lien_at : encumbrance_at sample kz1_pda lender ≡ ok (lien_pda, 255)
unfolding encumbrance_at sample
lien_at = refl

pub index_at : lien_index_at sample kz1_pda ≡ ok (index_pda, 255)
unfolding lien_index_at sample
index_at = refl

pub kz1_pda_key : sample.address_encode kz1_pda ≡ ok kz1_pda
unfolding sample
kz1_pda_key = refl

pub lender_key : sample.address_encode lender ≡ ok lender
unfolding sample
lender_key = refl

execute_lien-build_example :
    ((ix : Instruction) × (build_register_encumbrance_instruction sample lender kz1_pda kz1 15000000
          signature certificate
        ≡ ok ix)
      × (execute_lien sample to_kz1 now with_parcel ix
          ≡ register_encumbrance to_kz1 now with_parcel kz1_pda lender 255 255
              (sample.utf8_encode kz1)
              (15000000 % 2 ^ 64)
              signature
              certificate))
    × ((ix : Instruction) × (build_release_encumbrance_instruction sample lender kz1_pda ≡ ok ix)
        × (execute_lien sample to_kz1 now with_parcel ix
            ≡ release_encumbrance to_kz1 now with_parcel kz1_pda lender))
unfolding sample
execute_lien-build_example =
    execute_lien-build sample lender kz1_pda lien_pda index_pda 255 255 kz1_pda lender kz1_pda_key
      lender_key lien_at index_at to_kz1 now with_parcel kz1 15000000 signature certificate
      (omega arith) refl refl

abbrev pledged_account : Account
pledged_account = record {
  key = lien_pda;
  program = lien_registry_program_id;
  bytes = stored encumbrance_discriminator (encumbrance_fields held_lien) [];
}

abbrev pledged_ledger : Ledger
pledged_ledger = record { accounts = pledged_account ∷ []; to_base64 = λ b. b }

pledged_ledger-Serves : Serves sample (ledger_rpc sample pledged_ledger) pledged_ledger
unfolding sample le_bytes held_lien kz1_config
pledged_ledger-Serves = ledger_rpc-Serves sample pledged_ledger (omega arith) (λ b h. refl)

hash_size :
    (p : ParcelConfig) → with_parcel.parcels kz1_pda ≡ some p → length p.egiss_snapshot_hash ≡ 32
unfolding kz1_config
hash_size p h = ap (λ (o : Option ParcelConfig). length (hash_of o)) (sym h)

fetch_encumbrance-register_example :
    (p : ParcelConfig) × (with_parcel.parcels kz1_pda ≡ some p)
    × (fetch_encumbrance sample (ledger_rpc sample pledged_ledger) kz1_pda lender
        ≡ ok (
            some (record {
              parcel_pda = kz1_pda;
              lender = lender;
              amount = 15000000;
              notary_sig_hash = signature;
              notary_cert_hash = certificate;
              egiss_snapshot_hash = p.egiss_snapshot_hash;
              registered_at = pos 1760000000;
              released_at = pos 0;
              status = active;
              bump = some 255;
            })))
unfolding with_lien
fetch_encumbrance-register_example =
    fetch_encumbrance-register sample sample-Laws (ledger_rpc sample pledged_ledger) pledged_ledger
      pledged_ledger-Serves to_kz1 now lender kz1_pda lien_pda index_pda 255 255 kz1_pda lender
      kz1_pda_key lender_key lien_at index_at with_parcel with_lien kz1_number 15000000 signature
      certificate encumbrance_discriminator [] pledge refl refl (omega arith) refl refl
      (omega arith) hash_size

abbrev risky : Store
unfolding assess flag_of
risky = put_parcel with_lien kz1_pda (assess kz1_config 12 3 0)

assessed_risky :
    update_risk_assessment to_kz1 now with_lien kz1_pda farmer kz1_number 12 3 0 ≡ returns risky
unfolding update_risk_assessment parcel_of kz1_config with_lien
assessed_risky = refl

-- The season closes, and the flag stays.
abbrev risky_later : Store
unfolding close_season assess flag_of
risky_later = put_parcel risky kz1_pda (close_season (assess kz1_config 12 3 0))

closed_season : seasonal_check to_kz1 now risky kz1_pda kz1_number ≡ returns risky_later
unfolding seasonal_check parcel_of kz1_config with_lien risky
closed_season = refl

assessment_blocks_example :
    ((f : Failure) × (mint_certificate to_kz1 now risky_later
          (returns tt)
          kz1_pda
          farmer
          farmer
          kz1_number
        ≡ fails f))
    × (execute (risky_later.parcels kz1_pda) ≡ fails (hook_error fraud_flagged))
assessment_blocks_example =
    assessment_blocks to_kz1 now with_lien risky with_lien_reached kz1_pda farmer kz1_number 12 3 0
      assessed_risky risky_later now (returns tt) farmer farmer kz1_number (omega arith)
      (then_after now_same (by_seasonal_check now kz1_pda kz1_number closed_season) tt)

pub registered_three :
    (cert : Bytes)
    → (s : Store) × (register_encumbrance to_kz1 now with_parcel kz1_pda lender 255 255 kz1_number 3
          (zeros 32)
          cert
        ≡ returns s)
unfolding register_encumbrance parcel_of kz1_config
registered_three cert = (_, refl)
