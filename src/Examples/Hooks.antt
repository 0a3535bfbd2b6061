-- ===== src/Examples/Hooks.antt =====
-- Calls of `useLien`.
use terra_ledger.Base.{◌≡◌, refl, inl, ok, List, none, some, [], ◌∷◌, text, false}
use terra_ledger.Api.{post}
use terra_ledger.Api.Sdk.{release_path}
use terra_ledger.Hooks.{Loader, settle}
use terra_ledger.Hooks.Liens.{Encumbrance, active, settle_register, release_lien}
use terra_ledger.Hooks.Loading.{registered}
use terra_ledger.Hooks.Released.{Outcomes, now_same, then_after, release_lien-Outcomes}
use terra_ledger.Examples.Clients.{silent, as_it_is, serves}

abbrev lien : Encumbrance
lien = record {
  id = text "7";
  parcel_id = text "p";
  cadastral_number = text "03-047-123-456";
  lender_wallet = text "w";
  lender_name = none;
  amount_tenge = 5000;
  notary_cert_hash = none;
  on_chain_address = none;
  tx_signature = none;
  status = active;
  registered_at = text "2025-01-01";
  released_at = none;
}

abbrev showing : Loader (List Encumbrance)
showing = record { data' = lien ∷ []; loading = false; error = some (text "earlier") }

-- What is shown after lien 7 is released. Then another lien arrives.
abbrev shown_after : Loader (List Encumbrance)
shown_after = release_lien silent as_it_is (serves (text "released")) (text "7") showing

release_lien-Outcomes_example :
    Outcomes silent
      (text "7")
      (post (serves (text "released")) (release_path as_it_is (text "7")) (some (text "{}")))
      showing
      shown_after
      (settle_register silent (ok (record lien { id = text "8" })) shown_after).0
    × (shown_after.loading ≡ false)
unfolding settle_register settle
release_lien-Outcomes_example =
    release_lien-Outcomes silent as_it_is (serves (text "released")) (text "7") showing 1
      (record {
        hook = (settle_register silent (ok (record lien { id = text "8" })) shown_after).0;
        pending = 0;
      })
      (then_after _ _ now_same (registered 0 (ok (record lien { id = text "8" })) refl) (inl refl))
