-- ===== src/Chain/Risk.antt =====
-- What an assessment of a parcel's risk means for its certificates.
use mathlib.Core.Path.{subst}
use terra_ledger.Base.{
  ℕ, ◌≡◌, refl, sym, ap, ◌∙◌, arith, ◌≤◌, ◌<◌, ◌==◌, true, false, some, inl, inr,
}
use terra_ledger.Bytes.{Bytes, bytes_eq}
use terra_ledger.Bytes.Equality.{bytes_eq_refl}
use terra_ledger.Accounts.Layout.{ParcelConfig}
use terra_ledger.Chain.{
  Store, put_parcel, Attempt, Failure, returns, fails, hook_error, fraud_flagged, Clock,
}
use terra_ledger.Chain.Parcels.{some_inj, none-some, put_cases}
use terra_ledger.Chain.Pledges.{put_same}
use terra_ledger.Chain.Reach.{
  Reachable, Reachable-IsValid, Step, by_register_parcel, by_update_risk_assessment,
  by_seasonal_check, by_mint_certificate, by_register_encumbrance, by_release_encumbrance,
}
use terra_ledger.Chain.Terra.{
  update_risk_assessment, mint_certificate, assess, certify, close_season, flag_of,
}
use terra_ledger.Chain.Transfer.{execute}
use terra_ledger.Chain.Accepts.{
  register_parcel-returns, update_risk_assessment-returns, seasonal_check-returns,
  mint_certificate-returns, register_encumbrance-returns, release_encumbrance-returns,
}

flag_low : (score flag : ℕ) → score < 20 → flag ≤ 1 → flag_of score flag ≡ 1
unfolding flag_of
flag_low score flag low h = ground arith

not_flagged : (n : ℕ) → n ≡ 1 → (n == 0) ≡ true → ⊥
not_flagged n e h = ground arith

never : {A : Type 0} (m : Attempt A) → ((a : A) → m ≡ returns a → ⊥) → (f : Failure) × (m ≡ fails f)
never (returns a) h = absurd (h a refl)
never (fails f) h = (f, refl)

true-false : true ≡ false → ⊥
true-false h = cc

-- The parcel at `key` has its risk flag set.
abbrev pub Flagged : Bytes → Store → Type 0
Flagged key s = (p : ParcelConfig) × (s.parcels key ≡ some p) × (p.risk_flag ≡ 1)

put_parcel-Flagged :
    (s : Store) (key k : Bytes) (new : ParcelConfig)
    → (key ≡ k → (p : ParcelConfig) → s.parcels k ≡ some p → p.risk_flag ≡ 1 → new.risk_flag ≡ 1)
    → Flagged key s
    → Flagged key (put_parcel s k new)
put_parcel-Flagged s key k new keeps (p, there, flag) =
    elim (put_cases s.parcels k (some new) key) [
      | inl (here, e) ↦ (new, e, keeps here p (subst (λ j. s.parcels j ≡ some p) here there) flag)
      | inr (_, e) ↦ (p, e ∙ there, flag)
    ]

-- A handler that changes an account that stands there and leaves its flag.
kept_flag :
    (s : Store) (key k : Bytes) (new old : ParcelConfig)
    → s.parcels k ≡ some old
    → new.risk_flag ≡ old.risk_flag
    → Flagged key s
    → Flagged key (put_parcel s k new)
kept_flag s key k new old found same = put_parcel-Flagged s key k new (λ here p there flag.
    same ∙ ap (λ (c : ParcelConfig). c.risk_flag) (some_inj old p (sym found ∙ there)) ∙ flag)

-- A transaction that is no `update_risk_assessment` of the parcel at `key`.
abbrev pub LeavesAssessment :
    (pda : Bytes → Bytes) (key : Bytes) (s s' : Store) → Step pda s s' → Type 0
LeavesAssessment pda key s s' (by_register_parcel clock owner bump cadastral area class egiss h) =
    Unit
LeavesAssessment pda key s s'
      (by_update_risk_assessment clock k authority cadastral score grade ltv h) =
    bytes_eq key k ≡ false
LeavesAssessment pda key s s' (by_seasonal_check clock k cadastral h) = Unit
LeavesAssessment pda key s s' (by_mint_certificate clock token k owner minter cadastral h) = Unit
LeavesAssessment pda key s s'
      (by_register_encumbrance clock k lender b1 b2 cadastral amount sig cert h) =
    Unit
LeavesAssessment pda key s s' (by_release_encumbrance clock k lender h) = Unit

-- From one state of the accounts to a later one, the parcel at `key` not being assessed on the way.
pub data Later (pda : Bytes → Bytes) (key : Bytes) (s : Store) : Store → Type 0 where
  now_same : Later pda key s s
  then_after :
      {a b : Store}
      → Later pda key s a
      → (step : Step pda a b) → LeavesAssessment pda key a b step
      → Later pda key s b

Step-Flagged :
    (pda : Bytes → Bytes) (key : Bytes) (s s' : Store) (step : Step pda s s')
    → LeavesAssessment pda key s s' step
    → Flagged key s
    → Flagged key s'
unfolding certify close_season
Step-Flagged pda key s s' (by_register_parcel clock owner bump cadastral area class egiss h) other
      flagged =
    let (free, _, _, _, e) =
      register_parcel-returns pda clock s owner bump cadastral area class egiss h in
    subst (Flagged key) e (
      put_parcel-Flagged s key _ _ (λ _ p there _. absurd (none-some p (sym free ∙ there))) flagged)
Step-Flagged pda key s s' (by_update_risk_assessment clock k authority cadastral score grade ltv h)
      other flagged =
    let (_, _, _, _, _, _, _, e) =
      update_risk_assessment-returns pda clock s k authority cadastral score grade ltv h in
    subst (Flagged key) e (
      put_parcel-Flagged s key k _
        (λ here _ _ _.
          absurd (true-false (sym (bytes_eq_refl key) ∙ ap (bytes_eq key) here ∙ other)))
        flagged)
Step-Flagged pda key s s' (by_seasonal_check clock k cadastral h) other flagged =
    let (p, found, _, e) = seasonal_check-returns pda clock s k cadastral h in
    subst (Flagged key) e (kept_flag s key k (close_season p) p found refl flagged)
Step-Flagged pda key s s' (by_mint_certificate clock token k owner minter cadastral h) other
      flagged =
    let (p, found, _, _, _, _, e) =
      mint_certificate-returns pda clock s token k owner minter cadastral h in
    subst (Flagged key) e (kept_flag s key k (certify p clock.slot) p found refl flagged)
Step-Flagged pda key s s' (by_register_encumbrance clock k lender b1 b2 cadastral amount sig cert h)
      other flagged =
    let (_, (_, _, _, _, _, _, _, e)) =
      register_encumbrance-returns pda clock s k lender b1 b2 cadastral amount sig cert h in
    subst (Flagged key) e flagged
Step-Flagged pda key s s' (by_release_encumbrance clock k lender h) other flagged =
    let (_, _, (_, _, e)) = release_encumbrance-returns pda clock s k lender h in
    subst (Flagged key) e flagged

Later-Flagged :
    (pda : Bytes → Bytes) (key : Bytes) (s s' : Store)
    → Later pda key s s'
    → Flagged key s
    → Flagged key s'
Later-Flagged pda key s _ now_same flagged = flagged
Later-Flagged pda key s s' (then_after {a} {b} before step other) flagged =
    Step-Flagged pda key a s' step other (Later-Flagged pda key s a before flagged)

module _ (pda : Bytes → Bytes) (clock : Clock) (s s' : Store) (reached : Reachable pda s)
    (key authority cadastral : Bytes) (score grade ltv : ℕ)
    (updated : update_risk_assessment pda clock s key authority cadastral score grade ltv
      ≡ returns s') where
  assessed-Flagged : score < 20 → Flagged key s'
  unfolding assess
  assessed-Flagged low =
      let (p, found, _, _, _, _, _, e) =
        update_risk_assessment-returns pda clock s key authority cadastral score grade ltv
          updated in
      (
        assess p score grade ltv,
        ap (λ (t : Store). t.parcels key) (sym e)
            ∙ put_same s.parcels key (some (assess p score grade ltv)),
        flag_low score p.risk_flag low
            ((Reachable-IsValid pda s reached).parcel_valid key p found).flag_range,
      )

  -- In accounts that transactions have left, once a parcel is assessed with a score below 20, then
  -- after any further transactions in which it is not assessed again no certificate is minted for
  -- it, whoever asks, and the hook, where the account that it is given as the parcel is this
  -- parcel's, refuses the transfer as FraudFlagged.
  pub assessment_blocks :
      (later : Store) (clock' : Clock) (token : Attempt Unit) (owner minter number : Bytes)
      → score < 20
      → Later pda key s' later
      → ((f : Failure) × (mint_certificate pda clock' later token key owner minter number
            ≡ fails f))
        × (execute (later.parcels key) ≡ fails (hook_error fraud_flagged))
  unfolding execute
  assessment_blocks later clock' token owner minter number low after =
      let (p, there, flagged) = Later-Flagged pda key s' later after (assessed-Flagged low) in
      (
        never _ (λ s'' h.
            let (q, found, _, calm, _, _, _) =
              mint_certificate-returns pda clock' later token key owner minter number h in
            not_flagged q.risk_flag
              (ap (λ (c : ParcelConfig). c.risk_flag) (some_inj q _ (sym found ∙ there)) ∙ flagged)
              calm),
        rw there (rw flagged refl),
      )
