-- ===== src/Rpc/ByParcel.antt =====
-- `fetchEncumbrancesByParcel` of web/src/solana/accounts.ts, whose filter is the parcel's address at
-- offset 8 alone: the LienIndex of the parcel passes it too.
use terra_ledger.Base.{◌<◌, ◌≡◌, refl, ap, ◌∙◌, arith, List, [], ◌∷◌, ◌++◌, length}
use terra_ledger.Base.{length-append, Bool, true, ok, throws, Thrown, Text}
use terra_ledger.Base.{map_outcome, map_outcome_throws}
use terra_ledger.Bytes.{Bytes, IsBytes, bytes_eq}
use terra_ledger.Bytes.Equality.{bytes_eq_refl}
use terra_ledger.Bytes.Words.{length-le_bytes}
use terra_ledger.Platform.{Address, Kit}
use terra_ledger.Program.{lien_registry_program_id}
use terra_ledger.Accounts.{deserialize_encumbrance}
use terra_ledger.Accounts.Layout.{LienIndex, lien_index_fields, stored, IsLienIndex}
use terra_ledger.Accounts.Cursor.{Rest-stored, slice-Rest}
use terra_ledger.Accounts.Sizes.{deserialize_encumbrance_short}
use terra_ledger.Rpc.{Rpc, Memcmp, in_base58, decode_entries, fetch_encumbrances_by_parcel}
use terra_ledger.Rpc.Ledger.{Account, Ledger, Serves, selects, select, All-select, map_outcome-bare}

select_middle :
    (p : Account → Bool) (before : List Account) (a : Account) (after : List Account)
    → p a ≡ true
    → select p (before ++ (a ∷ after)) ≡ select p before ++ (a ∷ select p after)
select_middle p [] a after h = rw h
select_middle p (b ∷ before) a after h = ground (arith, select_middle p before a after h)

-- A LienIndex of the parcel, as lien_registry stores it, fills 44 bytes.
abbrev pub index_account : Text → Bytes → LienIndex → Account
index_account key tag l = record {
  key = key;
  program = lien_registry_program_id;
  bytes = stored tag (lien_index_fields l) [];
}

module _ (tag : Bytes) (l : LienIndex) (size : length tag ≡ 8) (v : IsLienIndex l) where
  index_size : length (stored tag (lien_index_fields l) []) < 192
  index_size =
      omega (arith, size, v.parcel_size, length-append {0}, length-le_bytes 2 l.total_lien_count)

  index_selected :
      (key : Text)
      → selects lien_registry_program_id 8 l.parcel_pda (index_account key tag l) ≡ true
  index_selected key =
      ap (λ s. bytes_eq s l.parcel_pda)
        (slice-Rest (length l.parcel_pda) refl (Rest-stored tag (lien_index_fields l) [] size))
      ∙ bytes_eq_refl l.parcel_pda

-- Where the ledger holds the LienIndex of a parcel, as lien_registry stores it (44 bytes of data),
-- `fetchEncumbrancesByParcel` for that parcel throws, whatever encumbrances there are.
pub fetch_encumbrances_by_parcel_index :
    (kit : Kit) (rpc : Rpc) (ledger : Ledger)
    → Serves kit rpc ledger
    → (parcel_pda : Address) (key : Text) (tag : Bytes) (l : LienIndex)
      (before after : List Account)
    → kit.address_encode parcel_pda ≡ ok l.parcel_pda
    → length tag ≡ 8
    → IsLienIndex l
    → ledger.accounts ≡ before ++ (index_account key tag l ∷ after)
    → (e : Thrown) × (fetch_encumbrances_by_parcel kit rpc parcel_pda ≡ throws e)
unfolding fetch_encumbrances_by_parcel decode_entries
fetch_encumbrances_by_parcel_index kit rpc ledger serves parcel_pda key tag l before after known
      size v holds =
    let filter : Memcmp = record { offset = 8; bytes = parcel_pda; encoding = in_base58 } in
    let chosen = selects lien_registry_program_id 8 l.parcel_pda in
    let (e, thrown) =
      map_outcome_throws (λ a. deserialize_encumbrance kit a.bytes) (select chosen before)
        (select chosen after) (index_account key tag l)
        (deserialize_encumbrance_short kit _ (index_size tag l size v)) in
    (
      e,
      rw (serves.programs lien_registry_program_id filter l.parcel_pda known) (
          map_outcome-bare kit rpc ledger serves (deserialize_encumbrance kit) _
            (All-select (λ a. IsBytes a.bytes) chosen ledger.accounts serves.accounts-IsBytes)
          ∙ ap
              (λ accounts.
                map_outcome (λ a. deserialize_encumbrance kit a.bytes) (select chosen accounts))
              holds
          ∙ ap (map_outcome (λ a. deserialize_encumbrance kit a.bytes)) (
              select_middle chosen before (index_account key tag l) after
                (index_selected tag l size v key))
          ∙ thrown),
    )
