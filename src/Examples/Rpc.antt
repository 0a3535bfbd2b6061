-- ===== src/Examples/Rpc.antt =====
-- The fetch functions of web/src/solana/accounts.ts against a node that answers from a ledger.
use terra_ledger.Base.{◌≡◌, refl, arith, [], ◌∷◌, map, All, some}
use terra_ledger.Base.{ok, throws, Thrown, ◌>>=◌, map_outcome}
use terra_ledger.Bytes.{le_bytes, Bytes, IsBytes, zeros}
use terra_ledger.Platform.{Kit}
use terra_ledger.Platform.Sample.{sample, sample-Laws}
use terra_ledger.Program.{terra_token_program_id, lien_registry_program_id}
use terra_ledger.Accounts.{deserialize_encumbrance}
use terra_ledger.Accounts.Layout.{stored, parcel_config_fields, encumbrance_fields}
use terra_ledger.Rpc.{
  result, Rpc, parcel_config_discriminator, encumbrance_discriminator, fetch_all_encumbrances,
  fetch_encumbrances_by_parcel,
}
use terra_ledger.Rpc.Ledger.{
  Account, Ledger, Serves, selects, select, account_at, entry_of, value_of, wanted_bytes, keyed,
}
use terra_ledger.Rpc.Listing.{fetch_all_encumbrances-ledger}
use terra_ledger.Rpc.ByParcel.{index_account, fetch_encumbrances_by_parcel_index}
use terra_ledger.Examples.Samples.{
  kz1_pda, lien_pda, index_pda, kz1_parcel, kz1_lien, kz1_index, kz1_index-IsLienIndex,
}

abbrev pub ledger_rpc : Kit → Ledger → Rpc
ledger_rpc kit ledger = record {
  get_account_info = λ addr. ok (result (value_of ledger (account_at addr ledger.accounts)));
  get_program_accounts = λ program filter. wanted_bytes kit filter >>= λ wanted. ok (
      some (map (entry_of ledger) (select (selects program filter.offset wanted) ledger.accounts)));
}

pub ledger_rpc-Serves :
    (kit : Kit) (ledger : Ledger)
    → All (λ a. IsBytes a.bytes) ledger.accounts
    → ((b : Bytes) → IsBytes b → kit.atob (ledger.to_base64 b) ≡ ok b)
    → Serves kit (ledger_rpc kit ledger) ledger
ledger_rpc-Serves kit ledger valid codec = record {
  accounts-IsBytes = valid;
  to_base64_lem = codec;
  info = λ addr. refl;
  programs = λ program filter wanted e. rw e;
}

abbrev index_tag : Bytes
index_tag = 1 ∷ 2 ∷ 3 ∷ 4 ∷ 5 ∷ 6 ∷ 7 ∷ 8 ∷ []

abbrev kz1_account : Account
kz1_account = record {
  key = kz1_pda;
  program = terra_token_program_id;
  bytes = stored parcel_config_discriminator (parcel_config_fields kz1_parcel) (zeros 14);
}

abbrev lien_account : Account
lien_account = record {
  key = lien_pda;
  program = lien_registry_program_id;
  bytes = stored encumbrance_discriminator (encumbrance_fields kz1_lien) [];
}

abbrev kz1_ledger : Ledger
kz1_ledger = record {
  accounts = kz1_account ∷ lien_account ∷ index_account index_pda index_tag kz1_index ∷ [];
  to_base64 = λ b. b;
}

abbrev node : Rpc
node = ledger_rpc sample kz1_ledger

node-Serves : Serves sample node kz1_ledger
unfolding sample le_bytes
node-Serves = ledger_rpc-Serves sample kz1_ledger (omega arith) (λ b h. refl)

fetch_all_encumbrances-ledger_example :
    fetch_all_encumbrances sample node
    ≡ map_outcome (keyed (deserialize_encumbrance sample)) (lien_account ∷ [])
fetch_all_encumbrances-ledger_example =
    fetch_all_encumbrances-ledger sample sample-Laws node kz1_ledger node-Serves

fetch_encumbrances_by_parcel_index_example :
    (e : Thrown) × (fetch_encumbrances_by_parcel sample node kz1_pda ≡ throws e)
unfolding sample
fetch_encumbrances_by_parcel_index_example =
    fetch_encumbrances_by_parcel_index sample node kz1_ledger node-Serves kz1_pda index_pda
      index_tag kz1_index (kz1_account ∷ lien_account ∷ []) [] refl refl kz1_index-IsLienIndex refl
