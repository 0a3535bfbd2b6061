-- ===== src/Wizard/Walk.antt =====
-- The wizard as its steps let it move: each handler dispatches while its step is shown.
use terra_ledger.Base.{
  ℕ, suc, ◌≤◌, arith, Bool-cases, true, false, ◌≡◌, ◌≢◌, refl, ap, sym, ◌∙◌, ◌⊎◌, inl, inr, Option,
  none, some, [], ◌∷◌, Text,
}
use terra_ledger.Wizard.{
  WizardPath, none_path, farmer, lender, WizardData, State, select_path, go_next, back, restart,
  update_data, initial_state, reducer, reduce_all, Form, ChainReply, sent, refused,
  is_already_registered, or_text, is_missing, submit_filled, handle_submit,
}

abbrev set_wallet : Option Text → WizardData → WizardData
set_wallet wallet d = record d { wallet_address = wallet }

abbrev set_ndvi : ℕ → WizardData → WizardData
set_ndvi score d = record d { ndvi_score = some score }

abbrev pub set_cadastral : Text → WizardData → WizardData
set_cadastral cadastral d = record d { cadastral = cadastral }

-- Choosing a path, going back, restarting and the updates of the wallet and of the score are allowed
-- at any step, which is more than the screens offer.
pub data Step (s : State) : State → Type 0 where
  chooses : (path : WizardPath) → path ≢ none_path → Step s (reducer s (select_path path))
  sets_wallet : (wallet : Option Text) → Step s (reducer s (update_data (set_wallet wallet)))
  leaves_wallet : s.path ≡ farmer → s.step ≡ 0 → Step s (reducer s go_next)
  submits :
      (form : Form) (reply : Option ChainReply)
      → s.path ≡ farmer
      → s.step ≡ 1
      → Step s (reduce_all s (handle_submit form reply).actions)
  measures : (score : ℕ) → Step s (reducer s (update_data (set_ndvi score)))
  leaves_ndvi : s.path ≡ farmer → s.step ≡ 2 → Step s (reducer s go_next)
  leaves_score : s.path ≡ farmer → s.step ≡ 3 → Step s (reducer s go_next)
  goes_back : s.path ≢ none_path → Step s (reducer s back)
  finds :
      (cadastral : Text)
      → cadastral ≢ []
      → s.path ≡ lender
      → s.step ≡ 0
      → Step s (reduce_all s (update_data (set_cadastral cadastral) ∷ go_next ∷ []))
  registers_lien : s.path ≡ lender → s.step ≡ 1 → Step s (reducer s go_next)
  restarts : Step s (reducer s restart)

pub data Reachable : State → Type 0 where
  start : Reachable initial_state
  next : (a b : State) → Reachable a → Step a b → Reachable b

-- how many steps a path has
abbrev pub last_step : WizardPath → ℕ
last_step none_path = 0
last_step farmer = 4
last_step lender = 2

-- the step up to which no parcel needs to be known
abbrev pub free_step : WizardPath → ℕ
free_step none_path = 0
free_step farmer = 1
free_step lender = 0

pub record Walks (s : State) : Type 0 where
  pub shown : s.step ≤ last_step s.path
  pub known : (s.step ≤ free_step s.path) ⊎ (s.data'.cadastral ≢ [])

true_not_false : true ≢ false
true_not_false = λ e. cc

not_empty : (form : Form) → is_missing form ≡ false → form.cadastral ≢ []
not_empty form filled e =
    let missing : is_missing form ≡ true = rw e refl in true_not_false (sym missing ∙ filled)

-- The parcel is known beyond the free steps of a path.
known_after :
    (s : State) (path : WizardPath) (n : ℕ)
    → s.path ≡ path
    → s.step ≡ n
    → suc (free_step path) ≤ n
    → Walks s
    → s.data'.cadastral ≢ []
known_after s path n p e beyond v = elim v.known [
  | inl free ↦ absurd (omega (arith, ap free_step p))
  | inr some_text ↦ some_text
]

submit_filled-Walks :
    (s : State) (form : Form) (reply : Option ChainReply)
    → s.path ≡ farmer
    → s.step ≡ 1
    → form.cadastral ≢ []
    → Walks s
    → Walks (reduce_all s (submit_filled form reply).actions)
unfolding reduce_all reducer submit_filled
submit_filled-Walks s form none p n some_text v = record {
  shown = rw (p, n) (omega arith);
  known = inr some_text;
}
submit_filled-Walks s form (some sent) p n some_text v = record {
  shown = rw (p, n) (omega arith);
  known = inr some_text;
}
submit_filled-Walks s form (some (refused message text')) p n some_text v =
    elim (Bool-cases (is_already_registered (or_text message text'))) [
      | inl already ↦ rw already (record { shown = rw p (omega arith); known = inr some_text })
      | inr other ↦ rw other (record { shown = v.shown; known = inr some_text })
    ]

submit-Walks :
    (s : State) (form : Form) (reply : Option ChainReply)
    → s.path ≡ farmer
    → s.step ≡ 1
    → Walks s
    → Walks (reduce_all s (handle_submit form reply).actions)
unfolding reduce_all handle_submit
submit-Walks s form reply p n v = elim (Bool-cases (is_missing form)) [
  | inl missing ↦ rw missing v
  | inr filled ↦ rw filled (submit_filled-Walks s form reply p n (not_empty form filled) v)
]

Step-Walks : (a b : State) → Step a b → Walks a → Walks b
unfolding reducer reduce_all
Step-Walks s _ (chooses path other) v = record { shown = omega arith; known = inl (omega arith) }
Step-Walks s _ (sets_wallet wallet) v = record { shown = v.shown; known = v.known }
Step-Walks s _ (leaves_wallet p n) v = record {
  shown = rw (p, n) (omega arith);
  known = inl (rw (p, n) (omega arith));
}
Step-Walks s _ (submits form reply p n) v = submit-Walks s form reply p n v
Step-Walks s _ (measures score) v = record { shown = v.shown; known = v.known }
Step-Walks s _ (leaves_ndvi p n) v = record {
  shown = rw (p, n) (omega arith);
  known = inr (known_after s farmer 2 p n (omega arith) v);
}
Step-Walks s _ (leaves_score p n) v = record {
  shown = rw (p, n) (omega arith);
  known = inr (known_after s farmer 3 p n (omega arith) v);
}
Step-Walks s _ (goes_back other) v = record {
  shown = omega (arith, v.shown);
  known = elim v.known [ inl free ↦ inl (omega arith) | inr some_text ↦ inr some_text ];
}
Step-Walks s _ (finds cadastral some_text p n) v = record {
  shown = rw (p, n) (omega arith);
  known = inr some_text;
}
Step-Walks s _ (registers_lien p n) v = record {
  shown = rw (p, n) (omega arith);
  known = inr (known_after s lender 1 p n (omega arith) v);
}
Step-Walks s _ restarts v = record { shown = omega arith; known = inl (omega arith) }

-- However the user walks, the step is one that the path has, and from the third step of a farmer and
-- the second of a lender the cadastral number is not empty.
pub Reachable-Walks : (s : State) → Reachable s → Walks s
Reachable-Walks _ start = record { shown = omega arith; known = inl (omega arith) }
Reachable-Walks b (next a _ r step) = Step-Walks a b step (Reachable-Walks a r)
