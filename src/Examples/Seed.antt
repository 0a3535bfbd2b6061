-- ===== src/Examples/Seed.antt =====
-- The seed script, run against the accounts of Examples/Chain.
use terra_ledger.Base.{◌≡◌, refl, arith, [], All, map, Text, text, includes}
use terra_ledger.Platform.{Kit}
use terra_ledger.Platform.Sample.{sample}
use terra_ledger.Chain.{
  empty_store, Attempt, returns, account_error, lien_error, terra_error, hook_error, panicked,
  Failure,
}
use terra_ledger.Seed.{Certificate, parcels, skip_line, err_line, register_parcels, register_lien}
use terra_ledger.Seed.Again.{IsSeed, Held, register_parcels_again, register_lien_again}
use terra_ledger.Examples.Samples.{farmer, lender}
use terra_ledger.Examples.Chain.{
  to_kz1, now, with_lien, with_lien_reached, held_lien, not_lender, with_lien-held,
}

-- The script, with text as it is for its bytes and each number as its own address.
abbrev ascii : Kit
ascii = record sample { utf8_encode = λ s. s }

abbrev shown_failure : Failure → Text
shown_failure account_error = text "Allocate: account already in use"
shown_failure panicked = []
shown_failure (terra_error e) = []
shown_failure (hook_error e) = []
shown_failure (lien_error e) = text "ActiveLienExists"

abbrev minted : Text → Certificate → Attempt Unit
minted cadastral cert = returns tt

parcels_accepted : All (IsSeed ascii) parcels
parcels_accepted = omega arith

register_parcels_again_example :
    let final =
      (register_parcels ascii
        (λ b. b)
        now
        (λ b. 255)
        shown_failure
        minted
        farmer
        parcels
        empty_store).0 in
    All (Held ascii (λ b. b) now (λ b. 255) shown_failure minted farmer final) parcels
    × (register_parcels ascii (λ b. b) now (λ b. 255) shown_failure minted farmer parcels final
        ≡ (final, map (λ parcel. skip_line) parcels))
unfolding includes
register_parcels_again_example =
    register_parcels_again ascii (λ b. b) now (λ b. 255) shown_failure minted farmer parcels
      empty_store parcels_accepted refl

register_lien_again_example :
    register_lien ascii to_kz1 now (λ b. 255) shown_failure minted farmer farmer with_lien
    ≡ (with_lien, err_line)
unfolding includes
register_lien_again_example =
    register_lien_again ascii to_kz1 now (λ b. 255) shown_failure minted farmer with_lien
      with_lien_reached lender farmer held_lien with_lien-held not_lender refl
