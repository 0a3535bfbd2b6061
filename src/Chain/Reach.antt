-- ===== src/Chain/Reach.antt =====
-- Every sequence of transactions leaves the accounts valid.
use mathlib.Core.Path.{subst}
use terra_ledger.Base.{
  ℕ, ◌≡◌, refl, sym, ap, ◌∙◌, arith, ◌<◌, ◌⊎◌, inl, inr, true, false, ◌==◌, Bool-cases,
}
use terra_ledger.Base.{some, ltb, Option-cases}
use terra_ledger.Bytes.{Bytes, bytes_eq, zeros}
use terra_ledger.Bytes.Equality.{bytes_eq_refl}
use terra_ledger.Accounts.Layout.{EncumbranceAccount, LienIndex}
use terra_ledger.Chain.{Store, empty_store, Clock, returns, Attempt}
use terra_ledger.Chain.Valid.{IsIndex, IsValid}
use terra_ledger.Chain.Parcels.{
  lt_of, none-some, register_parcel-IsValid, update_risk_assessment-IsValid, seasonal_check-IsValid,
  mint_certificate-IsValid,
}
use terra_ledger.Chain.Pledges.{freed-IsValid, pledged-IsValid}
use terra_ledger.Chain.Terra.{
  register_parcel, update_risk_assessment, seasonal_check, mint_certificate,
}
use terra_ledger.Chain.Lien.{
  index_or_new, name_index, count_lien, new_lien, uncount_lien, register_encumbrance,
  release_encumbrance,
}
use terra_ledger.Chain.Accepts.{register_encumbrance-returns, release_encumbrance-returns}

true-false : true ≡ false → ⊥
true-false h = cc

name_index_keeps :
    (key : Bytes) (j : LienIndex) (bump : ℕ)
    → ((name_index j key bump).active_lien_count ≡ j.active_lien_count)
      × ((name_index j key bump).total_lien_count ≡ j.total_lien_count)
unfolding name_index
name_index_keeps key j bump = elim (Bool-cases (bytes_eq j.parcel_pda (zeros 32))) [
  | inl new ↦ (rw new refl, rw new refl)
  | inr old ↦ (rw old refl, rw old refl)
]

name_index_named :
    (key : Bytes) (j : LienIndex) (bump : ℕ)
    → (j.parcel_pda ≡ key) ⊎ (j.parcel_pda ≡ zeros 32)
    → (name_index j key bump).parcel_pda ≡ key
unfolding name_index
name_index_named key j bump named = elim (Bool-cases (bytes_eq j.parcel_pda (zeros 32))) [
  | inl new ↦ rw new refl
  | inr old ↦ elim named [
    | inl e ↦ rw old e
    | inr e ↦ absurd (
        true-false (sym (bytes_eq_refl (zeros 32)) ∙ ap (λ b. bytes_eq b (zeros 32)) (sym e) ∙ old))
  ]
]

zero_of : (n : ℕ) → (n == 0) ≡ true → n ≡ 0
zero_of n h = ground arith

room_of : (n : ℕ) → ltb n 65535 ≡ true → n < 65535
room_of n h = ground arith

-- The index that a registration leaves.
counted-IsIndex :
    (key : Bytes) (j : LienIndex) (bump : ℕ)
    → (j.parcel_pda ≡ key) ⊎ (j.parcel_pda ≡ zeros 32)
    → j.active_lien_count ≡ 0
    → j.total_lien_count < 65535
    → IsIndex key (count_lien (name_index j key bump))
      × ((count_lien (name_index j key bump)).active_lien_count ≡ 1)
unfolding count_lien
counted-IsIndex key j bump named none' room =
    let (active, total) = name_index_keeps key j bump in
    (
      record {
        of_parcel = name_index_named key j bump named;
        at_most_one = omega (arith, active);
        in_total = omega (arith, active);
        total_range = omega (arith, total);
      },
      omega (arith, active),
    )

module _ (pda : Bytes → Bytes) (clock : Clock) (s : Store) (valid : IsValid pda s) where
  index_or_new_named :
      (key : Bytes)
      → ((index_or_new (s.indices key)).parcel_pda ≡ key)
        ⊎ ((index_or_new (s.indices key)).parcel_pda ≡ zeros 32)
  index_or_new_named key = elim (Option-cases (s.indices key)) [
    | inl new ↦ inr (rw new refl)
    | inr (j, e) ↦ inl (rw e (valid.index_valid key j e).of_parcel)
  ]

  -- A parcel whose index counts nothing has no lien.
  pub uncounted :
      (key : Bytes)
      → (index_or_new (s.indices key)).active_lien_count ≡ 0
      → (w : Bytes) (e : EncumbranceAccount) → s.liens key w ≡ some e
      → ⊥
  uncounted key none' w e h =
      let (j, at, one) = valid.counted key w e h in
      let same : (index_or_new (s.indices key)).active_lien_count ≡ j.active_lien_count =
        rw at refl in
      omega (arith, none', same, one)

  pub register_encumbrance-IsValid :
      {s' : Store} (key lender : Bytes) (b1 b2 : ℕ) (cadastral : Bytes) (amount : ℕ)
      (sig cert : Bytes)
      → register_encumbrance pda clock s key lender b1 b2 cadastral amount sig cert ≡ returns s'
      → IsValid pda s'
  unfolding new_lien
  register_encumbrance-IsValid key lender b1 b2 cadastral amount sig cert h =
      let (_, (p, found, _, positive, verified, none', room, e)) =
        register_encumbrance-returns pda clock s key lender b1 b2 cadastral amount sig cert h in
      let free : (index_or_new (s.indices key)).active_lien_count ≡ 0 = zero_of _ none' in
      let (good, one) =
        counted-IsIndex key (index_or_new (s.indices key)) b2 (index_or_new_named key) free
          (room_of _ room) in
      subst (IsValid pda) e (
        pledged-IsValid pda s valid key lender (new_lien p clock b1 key lender amount sig cert) _
          good (uncounted key free)
          (record {
            of_parcel = refl;
            of_lender = refl;
            is_active = refl;
            positive = lt_of 0 amount positive;
          })
          p found verified refl one)

  pub release_encumbrance-IsValid :
      {s' : Store} (key lender : Bytes)
      → release_encumbrance pda clock s key lender ≡ returns s'
      → IsValid pda s'
  unfolding uncount_lien
  release_encumbrance-IsValid key lender h =
      let (l, held, (i, at, e)) = release_encumbrance-returns pda clock s key lender h in
      let old = valid.index_valid key i at in
      subst (IsValid pda) e (
        freed-IsValid pda s valid key lender (uncount_lien i)
          (record {
            of_parcel = old.of_parcel;
            at_most_one = omega (arith, old.at_most_one);
            in_total = omega (arith, old.in_total);
            total_range = old.total_range;
          })
          l held (omega (arith, old.at_most_one)))

empty_store-IsValid : (pda : Bytes → Bytes) → IsValid pda empty_store
empty_store-IsValid pda = record {
  parcel_valid = λ key p h. absurd (none-some p h);
  lien_valid = λ key who e h. absurd (none-some e h);
  backed = λ key who e h. absurd (none-some e h);
  index_valid = λ key i h. absurd (none-some i h);
  counted = λ key who e h. absurd (none-some e h);
  single = λ key w1 w2 e1 e2 h1 h2. absurd (none-some e1 h1);
  held = λ key i h. absurd (none-some i h);
}

-- One transaction that succeeds, of whoever, at whatever time.
pub data Step (pda : Bytes → Bytes) (s s' : Store) : Type 0 where
  by_register_parcel :
      (clock : Clock) (owner : Bytes) (bump : ℕ) (cadastral : Bytes) (area class : ℕ)
      (egiss : Bytes)
      → register_parcel pda clock s owner bump cadastral area class egiss ≡ returns s'
      → Step pda s s'
  by_update_risk_assessment :
      (clock : Clock) (key authority cadastral : Bytes) (score grade ltv : ℕ)
      → update_risk_assessment pda clock s key authority cadastral score grade ltv ≡ returns s'
      → Step pda s s'
  by_seasonal_check :
      (clock : Clock) (key cadastral : Bytes)
      → seasonal_check pda clock s key cadastral ≡ returns s'
      → Step pda s s'
  by_mint_certificate :
      (clock : Clock) (token : Attempt Unit) (key owner mint_authority cadastral : Bytes)
      → mint_certificate pda clock s token key owner mint_authority cadastral ≡ returns s'
      → Step pda s s'
  by_register_encumbrance :
      (clock : Clock) (key lender : Bytes) (b1 b2 : ℕ) (cadastral : Bytes) (amount : ℕ)
      (sig cert : Bytes)
      → register_encumbrance pda clock s key lender b1 b2 cadastral amount sig cert ≡ returns s'
      → Step pda s s'
  by_release_encumbrance :
      (clock : Clock) (key lender : Bytes)
      → release_encumbrance pda clock s key lender ≡ returns s'
      → Step pda s s'

pub data Reachable (pda : Bytes → Bytes) : Store → Type 0 where
  at_start : Reachable pda empty_store
  after : {s s' : Store} → Reachable pda s → Step pda s s' → Reachable pda s'

Step-IsValid : (pda : Bytes → Bytes) (s s' : Store) → IsValid pda s → Step pda s s' → IsValid pda s'
Step-IsValid pda s s' v (by_register_parcel clock owner bump cadastral area class egiss h) =
    register_parcel-IsValid pda clock s v owner bump cadastral area class egiss h
Step-IsValid pda s s' v
      (by_update_risk_assessment clock key authority cadastral score grade ltv h) =
    update_risk_assessment-IsValid pda clock s v key authority cadastral score grade ltv h
Step-IsValid pda s s' v (by_seasonal_check clock key cadastral h) =
    seasonal_check-IsValid pda clock s v key cadastral h
Step-IsValid pda s s' v (by_mint_certificate clock token key owner minter cadastral h) =
    mint_certificate-IsValid pda clock s v token key owner minter cadastral h
Step-IsValid pda s s' v
      (by_register_encumbrance clock key lender b1 b2 cadastral amount sig cert h) =
    register_encumbrance-IsValid pda clock s v key lender b1 b2 cadastral amount sig cert h
Step-IsValid pda s s' v (by_release_encumbrance clock key lender h) =
    release_encumbrance-IsValid pda clock s v key lender h

-- From no accounts at all, after any transactions of the six handlers, each parcel stands at the
-- address of its number with its fields in range, each lien is active, of more than nothing and of a
-- verified parcel whose EGISS hash it has, no two lenders have a lien on one parcel, and the index
-- of a parcel counts its lien: one where there is one, none otherwise, and never more than in total.
pub Reachable-IsValid : (pda : Bytes → Bytes) (s : Store) → Reachable pda s → IsValid pda s
Reachable-IsValid pda _ at_start = empty_store-IsValid pda
Reachable-IsValid pda _ (after {s} {s'} before step) =
    Step-IsValid pda s s' (Reachable-IsValid pda s before) step
