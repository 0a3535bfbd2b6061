-- ===== src/Sdk/Reads.antt =====
-- The fetch functions of the SDK against those of the web client, whose endpoint is fixed.
use mathlib.Core.Path.{fun_ext, ap₂}
use terra_ledger.Base.{Outcome-cases, inl, inr, ap, ◌%◌, ◌≡◌, refl, [], ◌∷◌, ◌++◌, map}
use terra_ledger.Base.{Outcome, ok, Text}
use terra_ledger.Bytes.{Bytes}
use terra_ledger.Platform.{Address, Kit}
use terra_ledger.Program
use terra_ledger.Accounts
use terra_ledger.Rpc
use terra_ledger.Rpc.{
  AccountReply, no_result, result, undefined, null, with_data, Entry, Rpc, data_of_reply,
}
use terra_ledger.Sdk

add_chars_copy :
    (binary : Text) (bytes : Bytes) → Sdk.Fetch.add_chars binary bytes ≡ Rpc.binary_of binary bytes
unfolding Sdk.Fetch.add_chars Rpc.binary_of
add_chars_copy binary [] = refl
add_chars_copy binary (b ∷ bytes) = add_chars_copy (binary ++ (b ∷ [])) bytes

char_codes-map : (binary : Text) → Sdk.Fetch.char_codes binary ≡ map (λ c. c % 256) binary
unfolding Sdk.Fetch.char_codes
char_codes-map [] = refl
char_codes-map (c ∷ binary) = ap₂ (λ x xs. x ∷ xs) refl (char_codes-map binary)

module _ (kit : Kit) where
  base64_to_bytes_copy :
      (base64 : Text) → Sdk.Fetch.base64_to_bytes kit base64 ≡ Rpc.base64_to_bytes kit base64
  unfolding Sdk.Fetch.base64_to_bytes Rpc.base64_to_bytes
  base64_to_bytes_copy base64 = elim (Outcome-cases (kit.atob base64)) [
    | inl (binary, e) ↦ rw e (ap ok (char_codes-map binary))
    | inr (thrown, e) ↦ rw e refl
  ]

  bytes_to_base64_copy :
      (bytes : Bytes) → Sdk.Fetch.bytes_to_base64 kit bytes ≡ Rpc.bytes_to_base64 kit bytes
  unfolding Sdk.Fetch.bytes_to_base64 Rpc.bytes_to_base64
  bytes_to_base64_copy bytes = ap kit.btoa (add_chars_copy [] bytes)

  account_bytes_copy :
      (reply : AccountReply) → Sdk.Fetch.account_bytes kit reply ≡ data_of_reply kit reply
  unfolding Sdk.Fetch.account_bytes data_of_reply
  account_bytes_copy no_result = refl
  account_bytes_copy (result undefined) = refl
  account_bytes_copy (result null) = refl
  account_bytes_copy (result (with_data text64)) = rw (base64_to_bytes_copy text64) refl

  deserialize_parcel_config_copy :
      Sdk.Decoders.deserialize_parcel_config kit ≡ Accounts.deserialize_parcel_config kit
  unfolding Sdk.Decoders.deserialize_parcel_config Accounts.deserialize_parcel_config
      Sdk.Readers.read_address Accounts.read_address Sdk.Readers.read_string Accounts.read_string
      Sdk.Readers.read_u8 Accounts.read_u8 Sdk.Readers.read_u16_le Accounts.read_u16_le
      Sdk.Readers.read_u32_le Accounts.read_u32_le Sdk.Readers.read_u64_le Accounts.read_u64_le
      Sdk.Readers.read_i64_le Accounts.read_i64_le Sdk.Readers.read_bool Accounts.read_bool
      Sdk.Readers.read_bytes Accounts.read_bytes
  deserialize_parcel_config_copy = refl

  deserialize_encumbrance_copy :
      Sdk.Decoders.deserialize_encumbrance kit ≡ Accounts.deserialize_encumbrance kit
  unfolding Sdk.Decoders.deserialize_encumbrance Accounts.deserialize_encumbrance
      Sdk.Readers.read_address Accounts.read_address Sdk.Readers.read_u8 Accounts.read_u8
      Sdk.Readers.read_u64_le Accounts.read_u64_le Sdk.Readers.read_i64_le Accounts.read_i64_le
      Sdk.Readers.read_bytes Accounts.read_bytes Sdk.Readers.encumbrance_status
      Accounts.encumbrance_status
  deserialize_encumbrance_copy = refl

  deserialize_lien_index_copy :
      Sdk.Decoders.deserialize_lien_index kit ≡ Accounts.deserialize_lien_index kit
  unfolding Sdk.Decoders.deserialize_lien_index Accounts.deserialize_lien_index
      Sdk.Readers.read_address Accounts.read_address Sdk.Readers.read_u8 Accounts.read_u8
      Sdk.Readers.read_u16_le Accounts.read_u16_le
  deserialize_lien_index_copy = refl

  with_pda_copy :
      {A : Type 0} (decode : Bytes → Outcome A)
      → Sdk.Fetch.with_pda kit decode ≡ Rpc.keyed_entry kit decode
  unfolding Sdk.Fetch.with_pda Rpc.keyed_entry
  with_pda_copy decode =
      fun_ext
        λ entry. rw (base64_to_bytes_copy entry.base64, Sdk.Fetch.with_pda, Rpc.keyed_entry) refl

  without_pda_copy :
      {A : Type 0} (decode : Bytes → Outcome A)
      → Sdk.Fetch.without_pda kit decode ≡ Rpc.bare_entry kit decode
  unfolding Sdk.Fetch.without_pda Rpc.bare_entry
  without_pda_copy decode =
      fun_ext
        λ entry. rw (base64_to_bytes_copy entry.base64, Sdk.Fetch.without_pda, Rpc.bare_entry) refl

module _ (kit : Kit) (node : Text → Rpc) (url : Text) where
  get_account_data_copy :
      Sdk.Fetch.get_account_data kit node url ≡ Rpc.get_account_data kit (node url)
  unfolding Sdk.Fetch.get_account_data Rpc.get_account_data
  get_account_data_copy = fun_ext λ addr. elim (Outcome-cases ((node url).get_account_info addr)) [
    | inl (reply, e) ↦ rw e (account_bytes_copy kit reply)
    | inr (thrown, e) ↦ rw e refl
  ]

  -- Whatever the endpoint answers, the SDK's fetchParcelConfig, fetchParcelConfigByPda,
  -- fetchEncumbrance, fetchLienIndex, fetchAllParcels, fetchAllEncumbrances,
  -- fetchEncumbrancesByParcel and accountExists return or throw what those of the web client do with
  -- that endpoint as theirs.
  pub sdk_reads_agree :
      (cadastral : Text) (parcel_pda lender : Address)
      → (Sdk.Fetch.fetch_parcel_config kit node url cadastral
          ≡ Rpc.fetch_parcel_config kit (node url) cadastral)
        × (Sdk.Fetch.fetch_parcel_config_by_pda kit node url parcel_pda
            ≡ Rpc.fetch_parcel_config_by_pda kit (node url) parcel_pda)
        × (Sdk.Fetch.fetch_encumbrance kit node url parcel_pda lender
            ≡ Rpc.fetch_encumbrance kit (node url) parcel_pda lender)
        × (Sdk.Fetch.fetch_lien_index kit node url parcel_pda
            ≡ Rpc.fetch_lien_index kit (node url) parcel_pda)
        × (Sdk.Fetch.fetch_all_parcels kit node url ≡ Rpc.fetch_all_parcels kit (node url))
        × (Sdk.Fetch.fetch_all_encumbrances kit node url
            ≡ Rpc.fetch_all_encumbrances kit (node url))
        × (Sdk.Fetch.fetch_encumbrances_by_parcel kit node url parcel_pda
            ≡ Rpc.fetch_encumbrances_by_parcel kit (node url) parcel_pda)
        × (Sdk.Fetch.account_exists node url parcel_pda ≡ Rpc.account_exists (node url) parcel_pda)
  unfolding Sdk.Fetch.fetch_parcel_config Rpc.fetch_parcel_config
      Sdk.Fetch.fetch_parcel_config_by_pda Rpc.fetch_parcel_config_by_pda
      Sdk.Fetch.fetch_encumbrance Rpc.fetch_encumbrance Sdk.Fetch.fetch_lien_index
      Rpc.fetch_lien_index Sdk.Fetch.fetch_all_parcels Rpc.fetch_all_parcels
      Sdk.Fetch.fetch_all_encumbrances Rpc.fetch_all_encumbrances
      Sdk.Fetch.fetch_encumbrances_by_parcel Rpc.fetch_encumbrances_by_parcel
      Sdk.Fetch.account_exists Rpc.account_exists Sdk.Addresses.get_parcel_pda
      Program.get_parcel_pda Sdk.Addresses.get_encumbrance_pda Program.get_encumbrance_pda
      Sdk.Addresses.get_lien_index_pda Program.get_lien_index_pda Sdk.Fetch.null_or Rpc.decode_found
      Sdk.Fetch.map_result Rpc.decode_entries Sdk.Fetch.is_not_null Rpc.exists_in_reply
  sdk_reads_agree cadastral parcel_pda lender =
      rw
        (
          get_account_data_copy,
          bytes_to_base64_copy kit Rpc.parcel_config_discriminator,
          bytes_to_base64_copy kit Rpc.encumbrance_discriminator,
          deserialize_parcel_config_copy kit,
          deserialize_encumbrance_copy kit,
          deserialize_lien_index_copy kit,
          with_pda_copy kit (Accounts.deserialize_parcel_config kit),
          with_pda_copy kit (Accounts.deserialize_encumbrance kit),
          without_pda_copy kit (Accounts.deserialize_encumbrance kit),
        )
        (refl, refl, refl, refl, refl, refl, refl, refl)
