-- ===== src/Examples/Sdk.antt =====
-- The SDK and the web client on the parcel KZ1.
use terra_ledger.Base.{◌≡◌, [], ◌∷◌, some, ok, Text, text}
use terra_ledger.Bytes.{Bytes}
use terra_ledger.Platform.Sample.{sample}
use terra_ledger.Program
use terra_ledger.Program.Lien.{
  build_register_encumbrance_instruction, build_release_encumbrance_instruction,
}
use terra_ledger.Rpc
use terra_ledger.Rpc.{Rpc, result, null, with_data}
use terra_ledger.Sdk
use terra_ledger.Sdk.Agrees.{sdk_builders_agree}
use terra_ledger.Sdk.Reads.{sdk_reads_agree}
use terra_ledger.Accounts.Layout.{stored, parcel_config_fields}
use terra_ledger.Examples.Samples.{kz1, kz1_pda, kz1_parcel, farmer, lender, thirty_two}

abbrev season : Text
season = text "2026-Q1"

abbrev hash : Bytes
hash = thirty_two 171

abbrev url : Text
url = text "https://api.devnet.solana.com"

-- One parcel, served whatever the endpoint and the address.
abbrev endpoints : Text → Rpc
endpoints rpc_url = record {
  get_account_info = λ addr. ok (
      result
        (with_data (stored Rpc.parcel_config_discriminator (parcel_config_fields kz1_parcel) [])));
  get_program_accounts = λ program filter. ok (
      some (
        record {
          pubkey = kz1_pda;
          base64 = stored Rpc.parcel_config_discriminator (parcel_config_fields kz1_parcel) [];
        }
        ∷ []));
}

sdk_builders_agree_example :
    (Sdk.Terra.build_register_parcel_instruction sample farmer kz1 4530 2 hash
      ≡ Program.build_register_parcel_instruction sample farmer kz1 4530 2 hash)
    × (Sdk.Terra.build_mint_certificate_instruction sample farmer kz1 season 4530
        ≡ Program.build_mint_certificate_instruction sample farmer kz1 season 4530)
    × (Sdk.Terra.build_seasonal_check_instruction sample farmer kz1
        ≡ Program.build_seasonal_check_instruction sample farmer kz1)
    × (Sdk.Terra.build_verify_parcel_instruction sample kz1
        ≡ Program.build_verify_parcel_instruction sample kz1)
    × (Sdk.Lien.build_register_encumbrance_instruction sample farmer lender kz1 4530 hash hash
        ≡ build_register_encumbrance_instruction sample farmer lender kz1 4530 hash hash)
    × (Sdk.Lien.build_release_encumbrance_instruction sample farmer lender
        ≡ build_release_encumbrance_instruction sample farmer lender)
sdk_builders_agree_example = sdk_builders_agree sample farmer lender kz1 season 4530 2 hash hash

sdk_reads_agree_example :
    (Sdk.Fetch.fetch_parcel_config sample endpoints url kz1
      ≡ Rpc.fetch_parcel_config sample (endpoints url) kz1)
    × (Sdk.Fetch.fetch_parcel_config_by_pda sample endpoints url kz1_pda
        ≡ Rpc.fetch_parcel_config_by_pda sample (endpoints url) kz1_pda)
    × (Sdk.Fetch.fetch_encumbrance sample endpoints url kz1_pda lender
        ≡ Rpc.fetch_encumbrance sample (endpoints url) kz1_pda lender)
    × (Sdk.Fetch.fetch_lien_index sample endpoints url kz1_pda
        ≡ Rpc.fetch_lien_index sample (endpoints url) kz1_pda)
    × (Sdk.Fetch.fetch_all_parcels sample endpoints url
        ≡ Rpc.fetch_all_parcels sample (endpoints url))
    × (Sdk.Fetch.fetch_all_encumbrances sample endpoints url
        ≡ Rpc.fetch_all_encumbrances sample (endpoints url))
    × (Sdk.Fetch.fetch_encumbrances_by_parcel sample endpoints url kz1_pda
        ≡ Rpc.fetch_encumbrances_by_parcel sample (endpoints url) kz1_pda)
    × (Sdk.Fetch.account_exists endpoints url kz1_pda ≡ Rpc.account_exists (endpoints url) kz1_pda)
sdk_reads_agree_example = sdk_reads_agree sample endpoints url kz1 kz1_pda lender
