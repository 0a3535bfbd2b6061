-- ===== src/Pages/SearchParcel.antt =====
-- `search` and `handleSearch` of web/src/pages/WizardFlow/steps/SearchParcelStep.tsx.
use terra_ledger.Base.{
  ◌==◌, leb, Bool, ◌&&◌, ◌||◌, if◌then◌else◌, ◌≡◌, refl, ◌⊎◌, inl, inr, Outcome, ok, throws, List,
  [], ◌∷◌, ◌++◌, Text, text, ℕ, Outcome-cases,
}
use terra_ledger.Api.{Client, get}
use terra_ledger.Api.Sdk.{parcel_path}
use terra_ledger.Wizard.{State, Action, lender, update_data, go_next, reduce_all}
use terra_ledger.Wizard.Walk.{Step, finds, set_cadastral}

-- what the step dispatches, and the toasts it raises
pub record Searched : Type 0 where
  pub actions : List Action
  pub toasts : List Text

-- the white space and line ends of the language
abbrev is_space : ℕ → Bool
is_space c =
    (leb 9 c && leb c 13)
    || c == 32
    || c == 160
    || c == 5760
    || (leb 8192 c && leb c 8202)
    || c == 8232
    || c == 8233
    || c == 8239
    || c == 8287
    || c == 12288
    || c == 65279

abbrev drop_space : Text → Text
drop_space [] = []
drop_space (c ∷ s) = let rest = drop_space s in if is_space c then rest else c ∷ s

abbrev reverse : Text → Text
reverse [] = []
reverse (c ∷ s) = reverse s ++ (c ∷ [])

-- `trim`
unfoldable pub trim : Text → Text
trim s = reverse (drop_space (reverse (drop_space s)))

unfoldable pub settle_search : {J : Type 0} → Text → Outcome J → Searched
settle_search cadastral (ok parcel) = record {
  actions = update_data (set_cadastral cadastral) ∷ go_next ∷ [];
  toasts = [];
}
settle_search cadastral (throws x) = record {
  actions = [];
  toasts = (text "Parcel " ++ (cadastral ++ text " not found")) ∷ [];
}

module _ {J : Type 0} (encode : Text → Text) (client : Client J) where
  unfoldable pub search : Text → Searched
  search cadastral = settle_search cadastral (get client (parcel_path encode cadastral))

  unfoldable pub search_trimmed : Text → Searched
  search_trimmed [] = record { actions = []; toasts = [] }
  search_trimmed (c ∷ cadastral) = search (c ∷ cadastral)

  unfoldable pub handle_search : Text → Searched
  handle_search query = search_trimmed (trim query)

  -- What the step dispatches at the first step of a lender is nothing, or a step of the wizard.
  search_trimmed-Step :
      (s : State) (cadastral : Text)
      → s.path ≡ lender
      → s.step ≡ 0
      → ((search_trimmed cadastral).actions ≡ [])
        ⊎ Step s (reduce_all s (search_trimmed cadastral).actions)
  unfolding search_trimmed search settle_search
  search_trimmed-Step s [] path first = inl refl
  search_trimmed-Step s (c ∷ cadastral) path first =
      elim (Outcome-cases (get client (parcel_path encode (c ∷ cadastral)))) [
        | inl (parcel, e) ↦ rw e (inr (finds (c ∷ cadastral) (λ p. cc) path first))
        | inr (x, e) ↦ rw e (inl refl)
      ]
