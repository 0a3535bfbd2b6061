-- ===== src/Rpc/Lookup.antt =====
-- The fetch functions for one account, and `accountExists`, against the ledger that the node serves.
use mathlib.Core.Option
use terra_ledger.Base.{ℕ, ◌≡◌, ap, ◌∙◌, List, [], ◌∷◌, length, All, true, false}
use terra_ledger.Base.{◌⊎◌, inl, inr, Option, none, some, ok, Text, Option-cases, Bool-cases}
use mathlib.Core.Path.{subst}
use terra_ledger.Bytes.{Bytes, IsBytes, bytes_eq}
use terra_ledger.Platform.{Address, Kit}
use terra_ledger.Program.{get_parcel_pda, get_encumbrance_pda, get_lien_index_pda}
use terra_ledger.Accounts.{
  deserialize_parcel_config, deserialize_encumbrance, deserialize_lien_index,
}
use terra_ledger.Accounts.Layout.{ParcelConfig, parcel_config_fields, stored, IsParcelConfig}
use terra_ledger.Accounts.RoundTrip.{decoded_parcel, deserialize_parcel_config-stored}
use terra_ledger.Rpc.{
  Rpc, data_of_reply, get_account_data, exists_in_reply, account_exists, decode_found,
  fetch_parcel_config_by_pda, fetch_parcel_config, fetch_encumbrance, fetch_lien_index,
}
use terra_ledger.Rpc.Ledger.{Account, Ledger, Serves, account_at, base64_to_bytes-entry}

some_inj : (x a : Account) → some x ≡ some a → x ≡ a
some_inj x a e = cc

account_at-IsBytes :
    (addr : Address) (accounts : List Account) (a : Account)
    → All (λ x. IsBytes x.bytes) accounts
    → account_at addr accounts ≡ some a
    → IsBytes a.bytes
account_at-IsBytes addr [] a h e = cc
account_at-IsBytes addr (x ∷ accounts) a (p, h) e = elim (Bool-cases (bytes_eq x.key addr)) [
  | inl same ↦ subst (λ y. IsBytes y.bytes) (some_inj x a (rw same at e)) p
  | inr other ↦ account_at-IsBytes addr accounts a h (rw other at e)
]

-- The data of an account, or nothing.
abbrev pub data_at : Address → List Account → Option Bytes
data_at addr accounts = Option.map (λ (a : Account). a.bytes) (account_at addr accounts)

module _ (kit : Kit) (rpc : Rpc) (ledger : Ledger) (serves : Serves kit rpc ledger) where
  get_account_data-ledger :
      (addr : Address) → get_account_data kit rpc addr ≡ ok (data_at addr ledger.accounts)
  unfolding get_account_data data_of_reply
  get_account_data-ledger addr = elim (Option-cases (account_at addr ledger.accounts)) [
    | inl absent ↦ rw (serves.info addr, absent)
    | inr (a, found) ↦ rw (
      serves.info addr,
      found,
      base64_to_bytes-entry kit rpc ledger serves a.bytes
          (account_at-IsBytes addr ledger.accounts a serves.accounts-IsBytes found),
    )
  ]

  -- `fetchParcelConfigByPda`, `fetchEncumbrance` and `fetchLienIndex` decode the data that the ledger
  -- holds at the address (for the last two the derived one), and give null where it holds nothing.
  pub fetch_one-ledger :
      (parcel_pda lender encumbrance_pda lien_index_pda : Address) (b1 b2 : ℕ)
      → get_encumbrance_pda kit parcel_pda lender ≡ ok (encumbrance_pda, b1)
      → get_lien_index_pda kit parcel_pda ≡ ok (lien_index_pda, b2)
      → (fetch_parcel_config_by_pda kit rpc parcel_pda
          ≡ decode_found (deserialize_parcel_config kit) (data_at parcel_pda ledger.accounts))
        × (fetch_encumbrance kit rpc parcel_pda lender
            ≡ decode_found (deserialize_encumbrance kit) (data_at encumbrance_pda ledger.accounts))
        × (fetch_lien_index kit rpc parcel_pda
            ≡ decode_found (deserialize_lien_index kit) (data_at lien_index_pda ledger.accounts))
  unfolding fetch_parcel_config_by_pda fetch_encumbrance fetch_lien_index
  fetch_one-ledger parcel_pda lender encumbrance_pda lien_index_pda b1 b2 e1 e2 = (
    rw (get_account_data-ledger parcel_pda),
    rw (e1, get_account_data-ledger encumbrance_pda),
    rw (e2, get_account_data-ledger lien_index_pda),
  )

  -- `fetchParcelConfig` finds a registered parcel: where the ledger holds, at the address derived
  -- from the cadastral number, a stored ParcelConfig whose two addresses decode, the result is that
  -- account's fields.
  pub fetch_parcel_config-stored :
      (cadastral : Text) (pda : Address) (bump : ℕ) (a : Account) (tag space : Bytes)
      (p : ParcelConfig) (owner minter : Address)
      → get_parcel_pda kit cadastral ≡ ok (pda, bump)
      → account_at pda ledger.accounts ≡ some a
      → a.bytes ≡ stored tag (parcel_config_fields p) space
      → length tag ≡ 8
      → IsParcelConfig p
      → kit.address_decode p.owner ≡ ok owner
      → kit.address_decode p.mint_authority ≡ ok minter
      → fetch_parcel_config kit rpc cadastral ≡ ok (some (decoded_parcel kit p owner minter))
  unfolding fetch_parcel_config decode_found
  fetch_parcel_config-stored cadastral pda bump a tag space p owner minter derived held e size v o
        m =
      let data_held : data_at pda ledger.accounts
          ≡ some (stored tag (parcel_config_fields p) space) =
        ap (Option.map (λ (x : Account). x.bytes)) held ∙ ap some e in
      rw (
        derived,
        get_account_data-ledger pda,
        data_held,
        deserialize_parcel_config-stored kit tag space p owner minter size v o m,
      )

  -- `accountExists` says true exactly of the addresses at which the ledger holds an account, and
  -- those are the ones for which `getAccountData` gives data.
  pub account_exists-ledger :
      (addr : Address)
      → ((account_exists rpc addr ≡ ok true)
          × ((a : Account) × (account_at addr ledger.accounts ≡ some a)
              × (get_account_data kit rpc addr ≡ ok (some a.bytes))))
        ⊎ ((account_exists rpc addr ≡ ok false)
            × (account_at addr ledger.accounts ≡ none)
            × (get_account_data kit rpc addr ≡ ok none))
  unfolding account_exists exists_in_reply
  account_exists-ledger addr = elim (Option-cases (account_at addr ledger.accounts)) [
    | inl absent ↦
        inr (rw (serves.info addr, absent), absent, get_account_data-ledger addr ∙ rw absent)
    | inr (a, found) ↦
        inl (rw (serves.info addr, found), (a, found, get_account_data-ledger addr ∙ rw found))
  ]
