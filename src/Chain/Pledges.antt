-- ===== src/Chain/Pledges.antt =====
-- Registering and releasing a lien leave the accounts valid.
use mathlib.Core.Path.{subst}
use terra_ledger.Base.{◌≡◌, refl, sym, ap, ◌∙◌, ◌⊎◌, inl, inr, true}
use terra_ledger.Base.{Option, none, some}
use terra_ledger.Bytes.{Bytes}
use terra_ledger.Bytes.Equality.{bytes_eq_refl}
use terra_ledger.Accounts.Layout.{ParcelConfig, EncumbranceAccount, LienIndex}
use terra_ledger.Chain.{Store, put_lien, put_index, put_at}
use terra_ledger.Chain.Valid.{IsLien, IsIndex, IsValid}
use terra_ledger.Chain.Parcels.{put_cases, some_inj, none-some}

-- Where a lien of the changed accounts comes from.
lien_cases :
    (s : Store) (key who : Bytes) (new : Option EncumbranceAccount) (k w : Bytes)
    → ((k ≡ key) × (w ≡ who) × ((put_lien s key who new).liens k w ≡ new))
      ⊎ ((put_lien s key who new).liens k w ≡ s.liens k w)
lien_cases s key who new k w = elim (put_cases s.liens key (put_at (s.liens key) who new) k) [
  | inr (_, e) ↦ inr (ap (λ f. f w) e)
  | inl (here, e) ↦ elim (put_cases (s.liens key) who new w) [
    | inl (mine, e2) ↦ inl (here, mine, ap (λ f. f w) e ∙ e2)
    | inr (_, e2) ↦ inr (ap (λ f. f w) e ∙ e2 ∙ ap (λ j. s.liens j w) (sym here))
  ]
]

pub put_same : {A : Type 0} (f : Bytes → A) (key : Bytes) (a : A) → put_at f key a key ≡ a
put_same f key a = rw (bytes_eq_refl key) refl

pub freed_lien : (s : Store) (key who : Bytes) → (put_lien s key who none).liens key who ≡ none
freed_lien s key who =
    ap (λ f. f who) (put_same s.liens key (put_at (s.liens key) who none))
    ∙ put_same (s.liens key) who none

-- The index that stands at `key` is a valid one, and the others are as before.
IsIndex-put_at :
    (s : Store) (key : Bytes) (i : LienIndex)
    → IsIndex key i
    → ((k : Bytes) (j : LienIndex) → s.indices k ≡ some j → IsIndex k j)
    → (k : Bytes) (j : LienIndex) → (put_index s key i).indices k ≡ some j
    → IsIndex k j
IsIndex-put_at s key i good old k j h = elim (put_cases s.indices key (some i) k) [
  | inl (here, e) ↦
      subst (λ x. IsIndex k x) (some_inj i j (sym e ∙ h)) (subst (λ x. IsIndex x i) (sym here) good)
  | inr (_, e) ↦ old k j (sym e ∙ h)
]

module _ (pda : Bytes → Bytes) (s : Store) (valid : IsValid pda s) (key who : Bytes) (i : LienIndex)
    (good : IsIndex key i) where
  abbrev freed : Store
  freed = put_index (put_lien s key who none) key i

  pub freed-IsValid :
      (e : EncumbranceAccount)
      → s.liens key who ≡ some e
      → i.active_lien_count ≡ 0
      → IsValid pda freed
  freed-IsValid e held zero' =
      let kept : (k w : Bytes) (l : EncumbranceAccount)
          → freed.liens k w ≡ some l
          → s.liens k w ≡ some l =
        λ k w l h. elim (lien_cases s key who none k w) [
          | inl (_, _, gone) ↦ absurd (none-some l (sym gone ∙ h))
          | inr same ↦ sym same ∙ h
        ] in
      let gone : freed.liens key who ≡ none = freed_lien s key who in
      record {
        parcel_valid = valid.parcel_valid;
        lien_valid = λ k w l h. valid.lien_valid k w l (kept k w l h);
        backed = λ k w l h. valid.backed k w l (kept k w l h);
        index_valid = IsIndex-put_at s key i good valid.index_valid;
        counted = λ k w l h. elim (put_cases s.indices key (some i) k) [
          | inl (here, _) ↦
              let mine : w ≡ who =
                valid.single key w who l e (subst (λ x. s.liens x w ≡ some l) here (kept k w l h))
                  held in
              absurd (
                none-some l (
                  sym gone
                  ∙ subst (λ x. freed.liens key x ≡ some l) mine
                      (subst (λ x. freed.liens x w ≡ some l) here h)))
          | inr (_, e1) ↦
              let (j, found, one) = valid.counted k w l (kept k w l h) in (j, e1 ∙ found, one)
        ];
        single =
            λ k w1 w2 l1 l2 h1 h2. valid.single k w1 w2 l1 l2 (kept k w1 l1 h1) (kept k w2 l2 h2);
        held = λ k j h. elim (put_cases s.indices key (some i) k) [
          | inl (_, e1) ↦
              inl (subst (λ x. x.active_lien_count ≡ 0) (some_inj i j (sym e1 ∙ h)) zero')
          | inr (other, e1) ↦ elim (valid.held k j (sym e1 ∙ h)) [
            | inl none' ↦ inl none'
            | inr (w, l, there) ↦ inr (w, l, rw other there)
          ]
        ];
      }

module _ (s : Store) (key who : Bytes) (l : EncumbranceAccount) (i : LienIndex) where
  abbrev pub pledged : Store
  pledged = put_index (put_lien s key who (some l)) key i

  -- A lien of the changed accounts is the new one, or an old one of another parcel, where the parcel
  -- had none.
  pledged_cases :
      ((w : Bytes) (e : EncumbranceAccount) → s.liens key w ≡ some e → ⊥)
      → (k w : Bytes) (e : EncumbranceAccount) → pledged.liens k w ≡ some e
      → ((k ≡ key) × (w ≡ who) × (l ≡ e)) ⊎ ((s.liens k w ≡ some e) × (k ≡ key → ⊥))
  pledged_cases free k w e h = elim (lien_cases s key who (some l) k w) [
    | inl (here, mine, new) ↦ inl (here, mine, some_inj l e (sym new ∙ h))
    | inr same ↦
        inr (sym same ∙ h, λ here. free w e (subst (λ x. s.liens x w ≡ some e) here (sym same ∙ h)))
  ]

  pub pledged_lien : pledged.liens key who ≡ some l
  pledged_lien =
      ap (λ f. f who) (put_same s.liens key (put_at (s.liens key) who (some l)))
      ∙ put_same (s.liens key) who (some l)

module _ (pda : Bytes → Bytes) (s : Store) (valid : IsValid pda s) (key who : Bytes)
    (l : EncumbranceAccount) (i : LienIndex) (good : IsIndex key i) where
  pub pledged-IsValid :
      ((w : Bytes) (e : EncumbranceAccount) → s.liens key w ≡ some e → ⊥)
      → IsLien key who l
      → (p : ParcelConfig) → s.parcels key ≡ some p
      → p.kyc_verified ≡ true
      → p.egiss_snapshot_hash ≡ l.egiss_snapshot_hash
      → i.active_lien_count ≡ 1
      → IsValid pda (pledged s key who l i)
  pledged-IsValid free sound p found verified hash one = record {
    parcel_valid = valid.parcel_valid;
    lien_valid = λ k w e h. elim (pledged_cases s key who l i free k w e h) [
      | inl (here, mine, new) ↦
          subst (λ x. IsLien k w x) new
            (subst (λ x. IsLien x w l) (sym here) (subst (λ x. IsLien key x l) (sym mine) sound))
      | inr (old, _) ↦ valid.lien_valid k w e old
    ];
    backed = λ k w e h. elim (pledged_cases s key who l i free k w e h) [
      | inl (here, _, new) ↦ (
        p,
        subst (λ x. s.parcels x ≡ some p) (sym here) found,
        verified,
        hash ∙ ap (λ x. x.egiss_snapshot_hash) new,
      )
      | inr (old, _) ↦ valid.backed k w e old
    ];
    index_valid = IsIndex-put_at s key i good valid.index_valid;
    counted = λ k w e h. elim (pledged_cases s key who l i free k w e h) [
      | inl (here, _, _) ↦ (
        i,
        subst (λ x. (pledged s key who l i).indices x ≡ some i) (sym here)
            (put_same s.indices key (some i)),
        one,
      )
      | inr (old, away) ↦
          let (j, at, active) = valid.counted k w e old in
          elim (put_cases s.indices key (some i) k) [
            | inl (here, _) ↦ absurd (away here)
            | inr (_, e1) ↦ (j, e1 ∙ at, active)
          ]
    ];
    single = λ k w1 w2 e1 e2 h1 h2. elim (pledged_cases s key who l i free k w1 e1 h1) [
      | inl (here, mine1, _) ↦ elim (pledged_cases s key who l i free k w2 e2 h2) [
        | inl (_, mine2, _) ↦ mine1 ∙ sym mine2
        | inr (_, away) ↦ absurd (away here)
      ]
      | inr (old1, away) ↦ elim (pledged_cases s key who l i free k w2 e2 h2) [
        | inl (here, _, _) ↦ absurd (away here)
        | inr (old2, _) ↦ valid.single k w1 w2 e1 e2 old1 old2
      ]
    ];
    held = λ k j h. elim (put_cases s.indices key (some i) k) [
      | inl (here, e1) ↦ inr (
        who,
        l,
        subst (λ x. (pledged s key who l i).liens x who ≡ some l) (sym here)
            (pledged_lien s key who l i),
      )
      | inr (other, e1) ↦ elim (valid.held k j (sym e1 ∙ h)) [
        | inl none' ↦ inl none'
        | inr (w, e, at) ↦ inr (w, e, rw other at)
      ]
    ];
  }
