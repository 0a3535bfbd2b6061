-- ===== src/Api/Sdk.antt =====
-- `TerraLedgerClient` of sdk/src/client.ts. `encode` is `encodeURIComponent`; an input is the text
-- that `JSON.stringify` makes of it.
use terra_ledger.Base.{Outcome, none, some, ◌++◌, Text, text}
use terra_ledger.Api.{Client, request, method_get, method_post}

abbrev pub parcels : Text
parcels = text "/api/v1/parcels/"

abbrev pub liens : Text
liens = text "/api/v1/liens/"

module _ (encode : Text → Text) where
  unfoldable pub parcel_path : Text → Text
  parcel_path cadastral = parcels ++ encode cadastral

  unfoldable pub profile_path : Text → Text
  profile_path cadastral = parcels ++ (encode cadastral ++ text "/profile")

  unfoldable pub certificates_path : Text → Text
  certificates_path cadastral = parcels ++ (encode cadastral ++ text "/certificates")

  unfoldable pub liens_path : Text → Text
  liens_path cadastral = parcels ++ (encode cadastral ++ text "/liens")

  unfoldable pub release_path : Text → Text
  release_path lien_id = liens ++ (encode lien_id ++ text "/release")

module _ {J : Type 0} (encode : Text → Text) (client : Client J) where
  unfoldable pub get_parcel : Text → Outcome J
  get_parcel cadastral = request client method_get (parcel_path encode cadastral) none

  unfoldable pub get_credit_profile : Text → Outcome J
  get_credit_profile cadastral = request client method_get (profile_path encode cadastral) none

  unfoldable pub register_parcel : Text → Outcome J
  register_parcel input = request client method_post (text "/api/v1/parcels") (some input)

  unfoldable pub list_certificates : Text → Outcome J
  list_certificates cadastral = request client method_get (certificates_path encode cadastral) none

  unfoldable pub list_liens : Text → Outcome J
  list_liens cadastral = request client method_get (liens_path encode cadastral) none

  unfoldable pub register_lien : Text → Outcome J
  register_lien input = request client method_post (text "/api/v1/liens") (some input)

  unfoldable pub release_lien : Text → Outcome J
  release_lien lien_id = request client method_post (release_path encode lien_id) (some (text "{}"))
