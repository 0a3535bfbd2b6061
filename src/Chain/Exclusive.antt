-- ===== src/Chain/Exclusive.antt =====
-- One lien to a parcel at a time: what lien_registry answers while there is one, and after it is
-- released.
use mathlib.Core.Path.{subst}
use terra_ledger.Base.{ℕ, ◌≡◌, ◌≢◌, refl, sym, ap, ◌∙◌, arith, ◌<◌, true, ltb}
use terra_ledger.Base.{none, some, Option-cases, inl, inr}
use terra_ledger.Bytes.{Bytes}
use terra_ledger.Bytes.Equality.{bytes_eq_refl}
use terra_ledger.Accounts.Layout.{EncumbranceAccount, ParcelConfig}
use terra_ledger.Errors.Codes.{active_lien_exists}
use terra_ledger.Chain.{Store, Clock, returns, fails, account_error, lien_error}
use terra_ledger.Chain.Reach.{Reachable, Reachable-IsValid, release_encumbrance-IsValid, uncounted}
use terra_ledger.Chain.Terra.{parcel_of}
use terra_ledger.Chain.Lien.{
  register_encumbrance, release_encumbrance, index_or_new, uncount_lien, new_lien, count_lien,
  name_index,
}
use terra_ledger.Chain.Pledges.{pledged, put_same}
use terra_ledger.Chain.Accepts.{release_encumbrance-returns}

ltb-true : (a b : ℕ) → a < b → ltb a b ≡ true
ltb-true a b h = ground arith

no_lien :
    (s : Store) (key lender : Bytes)
    → ((e : EncumbranceAccount) → s.liens key lender ≡ some e → ⊥)
    → s.liens key lender ≡ none
no_lien s key lender h = elim (Option-cases (s.liens key lender)) [
  | inl free ↦ free
  | inr (e, held) ↦ absurd (h e held)
]

-- What is enough for a registration.
register_encumbrance_accepts :
    (pda : Bytes → Bytes) (clock : Clock) (s : Store) (key lender : Bytes) (b1 b2 : ℕ)
    (cadastral : Bytes) (amount : ℕ) (sig cert : Bytes) (p : ParcelConfig)
    → s.liens key lender ≡ none
    → s.parcels key ≡ some p
    → key ≡ pda cadastral
    → 0 < amount
    → p.kyc_verified ≡ true
    → (index_or_new (s.indices key)).active_lien_count ≡ 0
    → (index_or_new (s.indices key)).total_lien_count < 65535
    → register_encumbrance pda clock s key lender b1 b2 cadastral amount sig cert
      ≡ returns (
          pledged s key lender
            (new_lien p clock b1 key lender amount sig cert)
            (count_lien (name_index (index_or_new (s.indices key)) key b2)))
unfolding register_encumbrance parcel_of
register_encumbrance_accepts pda clock s key lender b1 b2 cadastral amount sig cert p free found
      here positive verified none' room =
    rw
      (
        free,
        found,
        sym here,
        bytes_eq_refl key,
        ltb-true 0 amount positive,
        verified,
        none',
        ltb-true (index_or_new (s.indices key)).total_lien_count 65535 room,
      )
      refl

module _ (pda : Bytes → Bytes) (clock : Clock) (s : Store) (reached : Reachable pda s)
    (key holder : Bytes) (e : EncumbranceAccount) (held : s.liens key holder ≡ some e) where
  -- While a parcel has a lien, its holder cannot register another one on it, since the account is in
  -- use, and a registration by anyone else that names the parcel's cadastral number and an amount
  -- fails with ActiveLienExists.
  pub register_encumbrance_pledged :
      (lender : Bytes) (b1 b2 : ℕ) (cadastral : Bytes) (amount : ℕ) (sig cert : Bytes)
      → lender ≢ holder
      → key ≡ pda cadastral
      → 0 < amount
      → (register_encumbrance pda clock s key holder b1 b2 cadastral amount sig cert
          ≡ fails account_error)
        × (register_encumbrance pda clock s key lender b1 b2 cadastral amount sig cert
            ≡ fails (lien_error active_lien_exists))
  unfolding register_encumbrance parcel_of
  register_encumbrance_pledged lender b1 b2 cadastral amount sig cert other here positive =
      let valid = Reachable-IsValid pda s reached in
      let (p, found, verified, _) = valid.backed key holder e held in
      let (i, counted, one) = valid.counted key holder e held in
      let free : s.liens key lender ≡ none =
        no_lien s key lender λ l mine. other (valid.single key lender holder l e mine held) in
      (
        rw held refl,
        rw
            (
              free,
              found,
              sym here,
              bytes_eq_refl key,
              ltb-true 0 amount positive,
              verified,
              counted,
              one,
            )
            refl,
      )

  -- After the lien is released, anyone can register one on the parcel again, with the parcel's
  -- cadastral number and an amount, while the index has counted fewer than 65535 liens in all.
  pub register_encumbrance-release :
      (clock' : Clock) (s' : Store)
      → release_encumbrance pda clock s key holder ≡ returns s'
      → (lender : Bytes) (b1 b2 : ℕ) (cadastral : Bytes) (amount : ℕ) (sig cert : Bytes)
      → key ≡ pda cadastral
      → 0 < amount
      → (index_or_new (s.indices key)).total_lien_count < 65535
      → (s'' : Store) × (register_encumbrance pda clock' s' key lender b1 b2 cadastral amount sig
            cert
          ≡ returns s'')
  unfolding uncount_lien
  register_encumbrance-release clock' s' released lender b1 b2 cadastral amount sig cert here
        positive room =
      let valid = Reachable-IsValid pda s reached in
      let valid' = release_encumbrance-IsValid pda clock s valid key holder released in
      let (p, found, verified, _) = valid.backed key holder e held in
      let (l, held', (i, counted, now)) =
        release_encumbrance-returns pda clock s key holder released in
      let found' : s'.parcels key ≡ some p = ap (λ (t : Store). t.parcels key) (sym now) ∙ found in
      let at : s'.indices key ≡ some (uncount_lien i) =
        ap (λ (t : Store). t.indices key) (sym now)
        ∙ put_same s.indices key (some (uncount_lien i)) in
      let low = (valid.index_valid key i counted).at_most_one in
      let none' : (index_or_new (s'.indices key)).active_lien_count ≡ 0 =
        rw at (omega (arith, low)) in
      let room' : (index_or_new (s'.indices key)).total_lien_count < 65535 =
        rw at (subst (λ o. (index_or_new o).total_lien_count < 65535) counted room) in
      (
        _,
        register_encumbrance_accepts pda clock' s' key lender b1 b2 cadastral amount sig cert p
            (no_lien s' key lender (uncounted pda clock' s' valid' key none' lender)) found' here
            positive verified none' room',
      )
