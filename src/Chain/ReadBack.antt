-- ===== src/Chain/ReadBack.antt =====
-- What `fetchEncumbrance` reads of a lien after lien_registry registered or released it.
use mathlib.Core.Option
use terra_ledger.Base.{ℕ, ◌≡◌, refl, sym, ap, ◌∙◌, ◌<◌, ◌^◌, length, none, some, ok, arith}
use terra_ledger.Bytes.{Bytes, IsI64, pos}
use terra_ledger.Platform.{Address, Kit, Laws}
use terra_ledger.Accounts.{active, deserialize_encumbrance}
use terra_ledger.Accounts.Layout.{ParcelConfig, EncumbranceAccount, encumbrance_fields, stored}
use terra_ledger.Accounts.RoundTrip.{deserialize_encumbrance-stored}
use terra_ledger.Rpc.{Rpc, fetch_encumbrance, decode_found}
use terra_ledger.Rpc.Ledger.{Ledger, Serves}
use terra_ledger.Rpc.Lookup.{data_at, fetch_one-ledger}
use terra_ledger.Chain.{Store, Clock, returns}
use terra_ledger.Chain.Lien.{
  register_encumbrance, release_encumbrance, new_lien, index_or_new, count_lien, name_index,
}
use terra_ledger.Chain.Accepts.{register_encumbrance-returns, release_encumbrance-returns}
use terra_ledger.Chain.Pledges.{pledged_lien, freed_lien}
use terra_ledger.Chain.Execute.{encumbrance_at, lien_index_at}
use terra_ledger.Chain.Client.{get_encumbrance_pda-at, get_lien_index_pda-at}

-- The ledger holds at `address` the account of the lien of `who` on `key`, or nothing where there is
-- none.
abbrev pub Shows : Ledger → Address → Bytes → Bytes → Store → Bytes → Bytes → Type 0
Shows ledger address tag space s key who =
    data_at address ledger.accounts
    ≡ Option.map (λ (e : EncumbranceAccount). stored tag (encumbrance_fields e) space)
        (s.liens key who)

module _ (kit : Kit) (laws : Laws kit) (rpc : Rpc) (ledger : Ledger)
    (serves : Serves kit rpc ledger) (pda : Bytes → Bytes) (clock : Clock)
    (lender parcel encumbrance_pda lien_index_pda : Address) (b1 b2 : ℕ) (key who : Bytes)
    (parcel_key : kit.address_encode parcel ≡ ok key)
    (lender_key : kit.address_encode lender ≡ ok who)
    (derived : encumbrance_at kit key who ≡ ok (encumbrance_pda, b1))
    (indexed : lien_index_at kit key ≡ ok (lien_index_pda, b2)) where
  fetch_encumbrance_found :
      fetch_encumbrance kit rpc parcel lender
      ≡ decode_found (deserialize_encumbrance kit) (data_at encumbrance_pda ledger.accounts)
  fetch_encumbrance_found =
      (fetch_one-ledger kit rpc ledger serves parcel lender encumbrance_pda lien_index_pda b1 b2
        (get_encumbrance_pda-at kit lender parcel encumbrance_pda lien_index_pda b1 b2 key who
          parcel_key lender_key derived indexed)
        (get_lien_index_pda-at kit lender parcel encumbrance_pda lien_index_pda b1 b2 key who
          parcel_key lender_key derived indexed)).1

  -- Where the parcel's and the lender's addresses encode to `key` and `who`, and the node serves a
  -- ledger that shows the accounts as lien_registry leaves them when it registers a lien of `who` on
  -- `key`, `fetchEncumbrance` returns that lien, active, with the amount and the hashes that were
  -- given, the parcel's EGISS hash and the time of the transaction. The arguments, the time and the
  -- parcel's hash are in the ranges of their types.
  pub fetch_encumbrance-register :
      (s s' : Store) (cadastral : Bytes) (amount : ℕ) (sig cert tag space : Bytes)
      → register_encumbrance pda clock s key who b1 b2 cadastral amount sig cert ≡ returns s'
      → Shows ledger encumbrance_pda tag space s' key who
      → length tag ≡ 8
      → amount < 2 ^ 64
      → length sig ≡ 32
      → length cert ≡ 32
      → IsI64 clock.unix_timestamp
      → ((p : ParcelConfig) → s.parcels key ≡ some p → length p.egiss_snapshot_hash ≡ 32)
      → (p : ParcelConfig) × (s.parcels key ≡ some p)
        × (fetch_encumbrance kit rpc parcel lender
            ≡ ok (
                some (record {
                  parcel_pda = parcel;
                  lender = lender;
                  amount = amount;
                  notary_sig_hash = sig;
                  notary_cert_hash = cert;
                  egiss_snapshot_hash = p.egiss_snapshot_hash;
                  registered_at = clock.unix_timestamp;
                  released_at = pos 0;
                  status = active;
                  bump = some b1;
                })))
  unfolding decode_found new_lien
  fetch_encumbrance-register s s' cadastral amount sig cert tag space h shows size a b c t hash =
      let (_, (p, found, _, _, _, _, _, e)) =
        register_encumbrance-returns pda clock s key who b1 b2 cadastral amount sig cert h in
      let lien = new_lien p clock b1 key who amount sig cert in
      let index = count_lien (name_index (index_or_new (s.indices key)) key b2) in
      let there : s'.liens key who ≡ some lien =
        ap (λ (x : Store). x.liens key who) (sym e) ∙ pledged_lien s key who lien index in
      (
        p,
        found,
        fetch_encumbrance_found
            ∙ rw (shows, there)
                (rw
                  (deserialize_encumbrance-stored kit tag space lien parcel lender active size
                    (record {
                      parcel_size = laws.address_encode_length parcel key parcel_key;
                      lender_size = laws.address_encode_length lender who lender_key;
                      amount_range = a;
                      sig_size = b;
                      cert_size = c;
                      egiss_size = hash p found;
                      registered_range = t;
                      released_range = omega arith;
                    })
                    (laws.address_decode-encode parcel key parcel_key)
                    (laws.address_decode-encode lender who lender_key) refl)
                  refl),
      )

  -- Where the same addresses encode, and the node serves a ledger that shows the accounts as
  -- lien_registry leaves them when it releases the lien of `who` on `key`, `fetchEncumbrance` returns
  -- null.
  pub fetch_encumbrance-release :
      (s s' : Store) (tag space : Bytes)
      → release_encumbrance pda clock s key who ≡ returns s'
      → Shows ledger encumbrance_pda tag space s' key who
      → fetch_encumbrance kit rpc parcel lender ≡ ok none
  unfolding decode_found
  fetch_encumbrance-release s s' tag space h shows =
      let (_, _, (i, _, e)) = release_encumbrance-returns pda clock s key who h in
      let gone : s'.liens key who ≡ none =
        ap (λ (x : Store). x.liens key who) (sym e) ∙ freed_lien s key who in
      fetch_encumbrance_found ∙ rw (shows, gone) refl
