-- ===== src/Sdk/Fetch.antt =====
-- The base64 helpers and the fetch functions of sdk/src/accounts.ts. `node url` is what the endpoint
-- `url` answers, as a value of the model's `Rpc`.
use terra_ledger.Base.{◌%◌, List, [], ◌∷◌, ◌++◌, Bool, true, false, Option, none, some}
use terra_ledger.Base.{Outcome, ok, throws, type_error, ◌>>=◌, map_outcome, Text}
use terra_ledger.Bytes.{Bytes}
use terra_ledger.Platform.{Address, Kit}
use terra_ledger.Accounts.{ParcelConfigAccount, EncumbranceAccountData, LienIndexData}
use terra_ledger.Rpc.{
  AccountReply, no_result, result, undefined, null, with_data, Entry, in_base58, in_base64, Rpc,
  Fetched,
}
use terra_ledger.Sdk.Addresses.{
  terra_token_program_id, lien_registry_program_id, get_parcel_pda, get_encumbrance_pda,
  get_lien_index_pda,
}
use terra_ledger.Sdk.Readers.{anchor_discriminator_size}
use terra_ledger.Sdk.Decoders.{
  deserialize_parcel_config, deserialize_encumbrance, deserialize_lien_index,
}

-- ParcelConfig discriminator
abbrev pub parcel_config_discriminator : Bytes
parcel_config_discriminator = 13 ∷ 4 ∷ 49 ∷ 115 ∷ 238 ∷ 91 ∷ 158 ∷ 26 ∷ []

-- EncumbranceAccount discriminator
abbrev pub encumbrance_discriminator : Bytes
encumbrance_discriminator = 81 ∷ 214 ∷ 219 ∷ 18 ∷ 223 ∷ 107 ∷ 108 ∷ 14 ∷ []

-- the loop of `bytesToBase64`
unfoldable pub add_chars : Text → Bytes → Text
add_chars binary [] = binary
add_chars binary (b ∷ bytes) = add_chars (binary ++ (b ∷ [])) bytes

-- the loop of `base64ToBytes`, which fills the array
unfoldable pub char_codes : Text → Bytes
char_codes [] = []
char_codes (c ∷ binary) = (c % 256) ∷ char_codes binary

-- `json.result.value !== null`
unfoldable pub is_not_null : AccountReply → Outcome Bool
is_not_null no_result = throws type_error
is_not_null (result null) = ok false
is_not_null (result undefined) = ok true
is_not_null (result (with_data text64)) = ok true

unfoldable pub account_exists : (Text → Rpc) → Text → Address → Outcome Bool
account_exists node rpc_url addr = do
  reply ← (node rpc_url).get_account_info addr
  is_not_null reply

-- `if (!data) return null; return deserialize(data)`
unfoldable pub null_or : {A : Type 0} → (Bytes → Outcome A) → Option Bytes → Outcome (Option A)
null_or decode none = ok none
null_or decode (some bytes) = do a ← decode bytes; ok (some a)

-- `if (!json.result) return []; return json.result.map(...)`
unfoldable pub map_result :
    {A : Type 0} → (Entry → Outcome A) → Option (List Entry) → Outcome (List A)
map_result f none = ok []
map_result f (some entries) = map_outcome f entries

module _ (kit : Kit) where
  unfoldable pub bytes_to_base64 : Bytes → Outcome Text
  unfolding add_chars
  bytes_to_base64 bytes = kit.btoa (add_chars [] bytes)

  unfoldable pub base64_to_bytes : Text → Outcome Bytes
  unfolding char_codes
  base64_to_bytes base64 = do binary ← kit.atob base64; ok (char_codes binary)

  -- what `getAccountData` makes of the parsed answer
  unfoldable pub account_bytes : AccountReply → Outcome (Option Bytes)
  account_bytes no_result = throws type_error
  account_bytes (result undefined) = ok none
  account_bytes (result null) = ok none
  account_bytes (result (with_data text64)) = do bytes ← base64_to_bytes text64; ok (some bytes)

  -- the functions that are mapped over the entries
  unfoldable pub with_pda : {A : Type 0} → (Bytes → Outcome A) → Entry → Outcome (Fetched A)
  with_pda decode entry = do
    bytes ← base64_to_bytes entry.base64
    decoded ← decode bytes
    ok (record { pda = entry.pubkey; account = decoded })

  unfoldable pub without_pda : {A : Type 0} → (Bytes → Outcome A) → Entry → Outcome A
  without_pda decode entry = do bytes ← base64_to_bytes entry.base64; decode bytes

module _ (kit : Kit) (node : Text → Rpc) (rpc_url : Text) where
  unfoldable pub get_account_data : Address → Outcome (Option Bytes)
  get_account_data addr = do reply ← (node rpc_url).get_account_info addr; account_bytes kit reply

  unfoldable pub fetch_parcel_config_by_pda : Address → Outcome (Option ParcelConfigAccount)
  fetch_parcel_config_by_pda parcel_pda = do
    found ← get_account_data parcel_pda
    null_or (deserialize_parcel_config kit) found

  unfoldable pub fetch_parcel_config : Text → Outcome (Option ParcelConfigAccount)
  fetch_parcel_config cadastral_number = do
    (pda, _) ← get_parcel_pda kit cadastral_number
    found ← get_account_data pda
    null_or (deserialize_parcel_config kit) found

  unfoldable pub fetch_encumbrance : Address → Address → Outcome (Option EncumbranceAccountData)
  fetch_encumbrance parcel_pda lender = do
    (pda, _) ← get_encumbrance_pda kit parcel_pda lender
    found ← get_account_data pda
    null_or (deserialize_encumbrance kit) found

  unfoldable pub fetch_lien_index : Address → Outcome (Option LienIndexData)
  fetch_lien_index parcel_pda = do
    (pda, _) ← get_lien_index_pda kit parcel_pda
    found ← get_account_data pda
    null_or (deserialize_lien_index kit) found

  unfoldable pub fetch_all_parcels : Outcome (List (Fetched ParcelConfigAccount))
  fetch_all_parcels = do
    discriminator ← bytes_to_base64 kit parcel_config_discriminator
    entries ←
        (node rpc_url).get_program_accounts terra_token_program_id
          (record { offset = 0; bytes = discriminator; encoding = in_base64 })
    map_result (with_pda kit (deserialize_parcel_config kit)) entries

  unfoldable pub fetch_all_encumbrances : Outcome (List (Fetched EncumbranceAccountData))
  fetch_all_encumbrances = do
    discriminator ← bytes_to_base64 kit encumbrance_discriminator
    entries ←
        (node rpc_url).get_program_accounts lien_registry_program_id
          (record { offset = 0; bytes = discriminator; encoding = in_base64 })
    map_result (with_pda kit (deserialize_encumbrance kit)) entries

  unfoldable pub fetch_encumbrances_by_parcel : Address → Outcome (List EncumbranceAccountData)
  fetch_encumbrances_by_parcel parcel_pda = do
    entries ←
        (node rpc_url).get_program_accounts lien_registry_program_id
          (record { offset = anchor_discriminator_size; bytes = parcel_pda; encoding = in_base58 })
    map_result (without_pda kit (deserialize_encumbrance kit)) entries
