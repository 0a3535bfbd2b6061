-- ===== src/Pages/Retries.antt =====
-- When the effects of CreditScoreStep.tsx come to rest, and on which screen.
use terra_ledger.Base.{
  ℕ, zero, suc, ◌+◌, ◌≤◌, ltb, arith, Bool, true, false, ◌≡◌, refl, ap, sym, ◌∙◌, ◌⊎◌, inl, inr,
  Option, none, some, throws, Text, Thrown, Bool-cases, Option-cases, Outcome-cases,
}
use terra_ledger.Api.{Client, get}
use terra_ledger.Api.Sdk.{profile_path}
use terra_ledger.Hooks.{Loader, fetch_profile, settle}
use terra_ledger.Pages.CreditScore.{
  waiting, scored, screen, no_profile, retries, intelligence, run_effects, failed_or_scored,
}

not_both : {b : Bool} → b ≡ true → b ≡ false → ⊥
not_both on off = cc

none_or_some : {A : Type 0} {o : Option A} {a : A} → o ≡ none → o ≡ some a → ⊥
none_or_some missing there = cc

module _ {P C : Type 0} (ci : P → Option C) where
  screen-scored :
      (h : Loader (Option P)) (k : ℕ) (c : C)
      → h.loading ≡ false
      → intelligence ci h.data' ≡ some c
      → screen ci h k ≡ scored (some c)
  unfolding screen failed_or_scored
  screen-scored h k c quiet there = rw (quiet, there) refl

  screen_waits :
      (h : Loader (Option P)) (k : ℕ)
      → h.loading ≡ false
      → intelligence ci h.data' ≡ none
      → k ≡ 0
      → screen ci h k ≡ waiting k
  unfolding screen failed_or_scored
  screen_waits h k quiet there zero' = rw (quiet, there, zero') refl

  retries_found :
      (h : Loader (Option P)) (k : ℕ) (p : P)
      → h.loading ≡ false
      → h.data' ≡ some p
      → ci p ≡ none
      → retries ci h k ≡ ltb k 3
  unfolding retries intelligence
  retries_found h k p quiet there lacks = rw (quiet, there, lacks) refl

  last_retry :
      (h : Loader (Option P)) (k : ℕ) (p : P)
      → h.loading ≡ false
      → h.data' ≡ some p
      → ci p ≡ none
      → retries ci h k ≡ false
      → k ≤ 3
      → k ≡ 3
  last_retry h k p quiet there lacks still le =
      let at_end : ltb k 3 ≡ false = sym (retries_found h k p quiet there lacks) ∙ still in
      ground arith

  retries_missing :
      (h : Loader (Option P)) (k : ℕ) → h.loading ≡ false → h.data' ≡ none → retries ci h k ≡ false
  unfolding retries
  retries_missing h k quiet missing = rw (quiet, missing) refl

  retries_scored :
      (h : Loader (Option P)) (k : ℕ) (p : P) (c : C)
      → h.loading ≡ false
      → h.data' ≡ some p
      → ci p ≡ some c
      → retries ci h k ≡ false
  unfolding retries intelligence
  retries_scored h k p c quiet there score = rw (quiet, there, score) refl

  -- A retry is for a profile without a score, and not the last.
  retries_again :
      (h : Loader (Option P)) (k : ℕ)
      → h.loading ≡ false
      → retries ci h k ≡ true
      → ((p : P) × (h.data' ≡ some p)) × (k ≤ 2)
  retries_again h k quiet again = elim (Option-cases h.data') [
    | inl missing ↦ absurd (not_both again (retries_missing h k quiet missing))
    | inr (p, there) ↦ elim (Option-cases (ci p)) [
      | inl lacks ↦
          let more : ltb k 3 ≡ true = sym (retries_found h k p quiet there lacks) ∙ again in
          ((p, there), ground arith)
      | inr (c, score) ↦ absurd (not_both again (retries_scored h k p c quiet there score))
    ]
  ]

module _ {P C : Type 0} (ci : P → Option C) (message : Thrown → Option Text) (encode : Text → Text)
    (clients : ℕ → Client P) (cadastral : Text) where
  fetched_cases :
      (k : ℕ) (hook : Loader (Option P))
      → let h = (fetch_profile message encode (clients k) cadastral hook).0 in
        (h.loading ≡ false)
        × (((p : P) × (h.data' ≡ some p))
            ⊎ ((h.data' ≡ hook.data')
                × ((x : Thrown) × (get (clients k) (profile_path encode cadastral) ≡ throws x))))
  unfolding fetch_profile settle
  fetched_cases k hook = elim (Outcome-cases (get (clients k) (profile_path encode cadastral))) [
    | inl (p, e) ↦ rw e (refl, inl (p, refl))
    | inr (x, e) ↦ rw e (refl, inr (refl, (x, refl)))
  ]

  -- What the effects leave: nothing under way and no timer, and a profile with a score, or the last
  -- retry, or a first request that failed, behind which the step waits for ever.
  abbrev pub Rests : Loader (Option P) → ℕ → Type 0
  Rests h k =
      (h.loading ≡ false)
      × (retries ci h k ≡ false)
      × (k ≤ 3)
      × (((c : C) × (screen ci h k ≡ scored (some c)))
          ⊎ ((k ≡ 3)
              ⊎ ((k ≡ 0)
                  × (screen ci h k ≡ waiting 0)
                  × ((x : Thrown) × (get (clients 0) (profile_path encode cadastral) ≡ throws x)))))

  at_rest :
      (k : ℕ) (hook : Loader (Option P))
      → (hook.data' ≡ none → k ≡ 0)
      → k ≤ 3
      → let h = (fetch_profile message encode (clients k) cadastral hook).0 in
        retries ci h k ≡ false → Rests h k
  unfolding intelligence
  at_rest k hook first le still =
      let h = (fetch_profile message encode (clients k) cadastral hook).0 in
      let (quiet, had) = fetched_cases k hook in
      elim (Option-cases h.data') [
        | inl missing ↦ elim had [
          | inl (p, there) ↦ absurd (none_or_some missing there)
          | inr (same, (x, thrown)) ↦
              let zero' = first (sym same ∙ missing) in
              (
                quiet,
                still,
                le,
                inr (
                    inr (
                      zero',
                      screen_waits ci h k quiet (ap (intelligence ci) missing) zero'
                          ∙ ap waiting zero',
                      (
                        x,
                        ap (λ n. get (clients n) (profile_path encode cadastral)) (sym zero')
                            ∙ thrown,
                      ),
                    )),
              )
        ]
        | inr (p, there) ↦ elim (Option-cases (ci p)) [
          | inl lacks ↦
              (quiet, still, le, inr (inl (last_retry ci h k p quiet there lacks still le)))
          | inr (c, score) ↦ (
            quiet,
            still,
            le,
            inl (c, screen-scored ci h k c quiet (ap (intelligence ci) there ∙ score)),
          )
        ]
      ]

  bounded_run :
      (n k : ℕ) (hook : Loader (Option P))
      → n + k ≡ 3
      → (hook.data' ≡ none → k ≡ 0)
      → let r = run_effects ci message encode clients cadastral (suc n) k hook in Rests r.0 r.1
  unfolding run_effects
  bounded_run zero k hook enough first =
      let h = (fetch_profile message encode (clients k) cadastral hook).0 in
      elim (Bool-cases (retries ci h k)) [
        | inl again ↦
            let le : suc (suc (suc k)) ≤ 5 =
              omega (arith, (retries_again ci h k (fetched_cases k hook).0 again).1) in
            absurd (omega arith)
        | inr still ↦ rw still (at_rest k hook first (omega arith) still)
      ]
  bounded_run (suc n) k hook enough first =
      let h = (fetch_profile message encode (clients k) cadastral hook).0 in
      elim (Bool-cases (retries ci h k)) [
        | inl again ↦
            let ((p, there), _) = retries_again ci h k (fetched_cases k hook).0 again in
            rw again (
              bounded_run n (suc k) h (omega arith)
                (λ missing. absurd (none_or_some missing there)))
        | inr still ↦ rw still (at_rest k hook first (omega arith) still)
      ]

  -- However the API answers each request, the effects of CreditScoreStep come to rest within four
  -- requests: no request is under way, no timer is set, and the step shows a score, or has retried
  -- three times, or its first request failed, and then it shows that it waits, for ever.
  pub run_effects-Rests :
      let r = run_effects ci message encode clients cadastral 4 0 no_profile in Rests r.0 r.1
  run_effects-Rests = bounded_run 3 0 no_profile refl (λ missing. refl)
