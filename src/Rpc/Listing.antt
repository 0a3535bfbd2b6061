-- ===== src/Rpc/Listing.antt =====
-- `fetchAllParcels` and `fetchAllEncumbrances` of web/src/solana/accounts.ts against the ledger that
-- the node serves.
use terra_ledger.Base.{◌≡◌, arith, map_outcome}
use terra_ledger.Bytes.{IsBytes}
use terra_ledger.Platform.{Kit, Laws}
use terra_ledger.Program.{terra_token_program_id, lien_registry_program_id}
use terra_ledger.Accounts.{deserialize_parcel_config, deserialize_encumbrance}
use terra_ledger.Rpc.{
  Rpc, Memcmp, in_base64, parcel_config_discriminator, encumbrance_discriminator, decode_entries,
  fetch_all_parcels, fetch_all_encumbrances,
}
use terra_ledger.Rpc.Ledger.{
  Ledger, Serves, selects, select, All-select, keyed, bytes_to_base64_lem, map_outcome-keyed,
}

module _ (kit : Kit) (laws : Laws kit) (rpc : Rpc) (ledger : Ledger)
    (serves : Serves kit rpc ledger) where
  -- Against a node that serves the ledger, `fetchAllParcels` decodes exactly the accounts that
  -- terra_token owns and whose data begin with the ParcelConfig discriminator, in the ledger's
  -- order, each with its address, and throws what the first that does not decode throws.
  pub fetch_all_parcels-ledger :
      fetch_all_parcels kit rpc
      ≡ map_outcome
          (keyed (deserialize_parcel_config kit))
          (select (selects terra_token_program_id 0 parcel_config_discriminator) ledger.accounts)
  unfolding fetch_all_parcels decode_entries
  fetch_all_parcels-ledger =
      let (t, sent, wanted) =
        bytes_to_base64_lem kit laws parcel_config_discriminator (omega arith) in
      let filter : Memcmp = record { offset = 0; bytes = t; encoding = in_base64 } in
      rw (sent, serves.programs terra_token_program_id filter parcel_config_discriminator wanted)
        (map_outcome-keyed kit rpc ledger serves (deserialize_parcel_config kit) _
          (All-select (λ a. IsBytes a.bytes) _ ledger.accounts serves.accounts-IsBytes))

  -- Against a node that serves the ledger, `fetchAllEncumbrances` decodes exactly the accounts that
  -- lien_registry owns and whose data begin with the EncumbranceAccount discriminator, in the
  -- ledger's order, each with its address, and throws what the first that does not decode throws.
  pub fetch_all_encumbrances-ledger :
      fetch_all_encumbrances kit rpc
      ≡ map_outcome
          (keyed (deserialize_encumbrance kit))
          (select (selects lien_registry_program_id 0 encumbrance_discriminator) ledger.accounts)
  unfolding fetch_all_encumbrances decode_entries
  fetch_all_encumbrances-ledger =
      let (t, sent, wanted) =
        bytes_to_base64_lem kit laws encumbrance_discriminator (omega arith) in
      let filter : Memcmp = record { offset = 0; bytes = t; encoding = in_base64 } in
      rw (sent, serves.programs lien_registry_program_id filter encumbrance_discriminator wanted)
        (map_outcome-keyed kit rpc ledger serves (deserialize_encumbrance kit) _
          (All-select (λ a. IsBytes a.bytes) _ ledger.accounts serves.accounts-IsBytes))
