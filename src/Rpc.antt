-- ===== src/Rpc.antt =====
-- The fetch functions of web/src/solana/accounts.ts, and `accountExists` of
-- web/src/solana/program.ts. The node is a parameter: `Rpc` gives what its answer to a request
-- parses to, or what `fetch` or `resp.json()` throws. sdk/src/accounts.ts has the same functions
-- with the endpoint as an argument, which is another `Rpc` value.
pub mod Ledger
pub mod Listing
pub mod ByParcel
pub mod Lookup
use terra_ledger.Base.{ℕ, ◌%◌, List, [], ◌∷◌, ◌++◌, map, Bool, true, false, Option, none, some}
use terra_ledger.Base.{Outcome, ok, throws, type_error, ◌>>=◌, map_outcome, Text}
use terra_ledger.Bytes.{Bytes}
use terra_ledger.Platform.{Address, Kit}
use terra_ledger.Program.{
  terra_token_program_id, lien_registry_program_id, get_parcel_pda, get_encumbrance_pda,
  get_lien_index_pda,
}
use terra_ledger.Accounts.{
  anchor_discriminator_size, ParcelConfigAccount, EncumbranceAccountData, LienIndexData,
  deserialize_parcel_config, deserialize_encumbrance, deserialize_lien_index,
}

-- `result.value`: an account is shown by `data[0]`, its data in base64.
pub data Value : Type 0 where
  undefined null : Value
  with_data : Text → Value

-- The answer to `getAccountInfo`; an error answer has no `result`.
pub data AccountReply : Type 0 where
  no_result : AccountReply
  result : Value → AccountReply

-- An element of the answer to `getProgramAccounts`.
pub record Entry : Type 0 where
  pub pubkey : Text
  pub base64 : Text

pub data Encoding : Type 0 where
  in_base58 in_base64 : Encoding

-- The one filter of a `getProgramAccounts` request. With no `encoding` its bytes are base58.
pub record Memcmp : Type 0 where
  pub offset : ℕ
  pub bytes : Text
  pub encoding : Encoding

pub record Rpc : Type 0 where
  pub get_account_info : Address → Outcome AccountReply
  -- `none` where `result` is null or missing
  pub get_program_accounts : Address → Memcmp → Outcome (Option (List Entry))

pub record Fetched (A : Type 0) : Type 0 where
  pub pda : Text
  pub account : A

-- ParcelConfig discriminator
abbrev pub parcel_config_discriminator : Bytes
parcel_config_discriminator = 13 ∷ 4 ∷ 49 ∷ 115 ∷ 238 ∷ 91 ∷ 158 ∷ 26 ∷ []

-- EncumbranceAccount discriminator
abbrev pub encumbrance_discriminator : Bytes
encumbrance_discriminator = 81 ∷ 214 ∷ 219 ∷ 18 ∷ 223 ∷ 107 ∷ 108 ∷ 14 ∷ []

-- the loop of `bytesToBase64`
unfoldable pub binary_of : Text → Bytes → Text
binary_of binary [] = binary
binary_of binary (b ∷ bytes) = binary_of (binary ++ (b ∷ [])) bytes

-- `json.result.value !== null`
unfoldable pub exists_in_reply : AccountReply → Outcome Bool
exists_in_reply no_result = throws type_error
exists_in_reply (result undefined) = ok true
exists_in_reply (result null) = ok false
exists_in_reply (result (with_data text64)) = ok true

unfoldable pub account_exists : Rpc → Address → Outcome Bool
account_exists rpc addr = do reply ← rpc.get_account_info addr; exists_in_reply reply

-- `if (!data) return null; return deserialize(data)`
unfoldable pub decode_found : {A : Type 0} → (Bytes → Outcome A) → Option Bytes → Outcome (Option A)
decode_found decode none = ok none
decode_found decode (some bytes) = do a ← decode bytes; ok (some a)

-- `if (!json.result) return []; return json.result.map(...)`
unfoldable pub decode_entries :
    {A : Type 0} → (Entry → Outcome A) → Option (List Entry) → Outcome (List A)
decode_entries decode none = ok []
decode_entries decode (some entries) = map_outcome decode entries

module _ (kit : Kit) where
  unfoldable pub bytes_to_base64 : Bytes → Outcome Text
  unfolding binary_of
  bytes_to_base64 bytes = kit.btoa (binary_of [] bytes)

  -- `bytes[i] = binary.charCodeAt(i)` for every index
  unfoldable pub base64_to_bytes : Text → Outcome Bytes
  base64_to_bytes text64 = do binary ← kit.atob text64; ok (map (λ c. c % 256) binary)

  -- what `getAccountData` makes of the parsed answer
  unfoldable pub data_of_reply : AccountReply → Outcome (Option Bytes)
  data_of_reply no_result = throws type_error
  data_of_reply (result undefined) = ok none
  data_of_reply (result null) = ok none
  data_of_reply (result (with_data text64)) = do bytes ← base64_to_bytes text64; ok (some bytes)

  -- the functions that are mapped over the entries
  unfoldable pub keyed_entry : {A : Type 0} → (Bytes → Outcome A) → Entry → Outcome (Fetched A)
  keyed_entry decode entry = do
    bytes ← base64_to_bytes entry.base64
    decoded ← decode bytes
    ok (record { pda = entry.pubkey; account = decoded })

  unfoldable pub bare_entry : {A : Type 0} → (Bytes → Outcome A) → Entry → Outcome A
  bare_entry decode entry = do bytes ← base64_to_bytes entry.base64; decode bytes

module _ (kit : Kit) (rpc : Rpc) where
  unfoldable pub get_account_data : Address → Outcome (Option Bytes)
  get_account_data addr = do reply ← rpc.get_account_info addr; data_of_reply kit reply

  unfoldable pub fetch_parcel_config_by_pda : Address → Outcome (Option ParcelConfigAccount)
  fetch_parcel_config_by_pda parcel_pda = do
    found ← get_account_data parcel_pda
    decode_found (deserialize_parcel_config kit) found

  unfoldable pub fetch_parcel_config : Text → Outcome (Option ParcelConfigAccount)
  fetch_parcel_config cadastral_number = do
    (pda, _) ← get_parcel_pda kit cadastral_number
    found ← get_account_data pda
    decode_found (deserialize_parcel_config kit) found

  unfoldable pub fetch_encumbrance : Address → Address → Outcome (Option EncumbranceAccountData)
  fetch_encumbrance parcel_pda lender = do
    (pda, _) ← get_encumbrance_pda kit parcel_pda lender
    found ← get_account_data pda
    decode_found (deserialize_encumbrance kit) found

  unfoldable pub fetch_lien_index : Address → Outcome (Option LienIndexData)
  fetch_lien_index parcel_pda = do
    (pda, _) ← get_lien_index_pda kit parcel_pda
    found ← get_account_data pda
    decode_found (deserialize_lien_index kit) found

  unfoldable pub fetch_all_parcels : Outcome (List (Fetched ParcelConfigAccount))
  fetch_all_parcels = do
    discriminator ← bytes_to_base64 kit parcel_config_discriminator
    reply ←
        rpc.get_program_accounts terra_token_program_id
          (record { offset = 0; bytes = discriminator; encoding = in_base64 })
    decode_entries (keyed_entry kit (deserialize_parcel_config kit)) reply

  unfoldable pub fetch_all_encumbrances : Outcome (List (Fetched EncumbranceAccountData))
  fetch_all_encumbrances = do
    discriminator ← bytes_to_base64 kit encumbrance_discriminator
    reply ←
        rpc.get_program_accounts lien_registry_program_id
          (record { offset = 0; bytes = discriminator; encoding = in_base64 })
    decode_entries (keyed_entry kit (deserialize_encumbrance kit)) reply

  unfoldable pub fetch_encumbrances_by_parcel : Address → Outcome (List EncumbranceAccountData)
  fetch_encumbrances_by_parcel parcel_pda = do
    reply ←
        rpc.get_program_accounts lien_registry_program_id
          (record { offset = anchor_discriminator_size; bytes = parcel_pda; encoding = in_base58 })
    decode_entries (bare_entry kit (deserialize_encumbrance kit)) reply
