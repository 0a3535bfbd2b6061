-- ===== src/Examples/Wizard.antt =====
-- Walks through the wizard.
use terra_ledger.Base.{
  ◌≡◌, ◌≢◌, refl, inl, some, [], ◌∷◌, text, includes, strip_prefix, span, false,
}
use terra_ledger.Errors.{
  ErrorValue, string, extract_error_string, anchor_match_at, hex_match_at, first_match, some_of,
}
use terra_ledger.Errors.Messages.{first_named, parse_transaction_error}
use terra_ledger.Wizard.{
  Form, refused, update_data, fill, is_missing, handle_submit, State, reducer, reduce_all,
  initial_state, lender, none_path, select_path, go_next,
}
use terra_ledger.Wizard.Registered.{OnlyInUse, handle_submit-Exists}
use terra_ledger.Wizard.Walk.{
  chooses, finds, set_cadastral, Reachable, start, next, Walks, Reachable-Walks,
}

abbrev form : Form
form = record {
  cadastral = text "KZ11-0033-001";
  area_ha = 150;
  land_class = 2;
  oblast = text "Akmola";
}

abbrev in_use : ErrorValue
in_use = string (text "Allocate: account is already in use")

in_use-OnlyInUse : OnlyInUse (extract_error_string in_use)
unfolding extract_error_string first_match anchor_match_at hex_match_at strip_prefix some_of span
    first_named includes
in_use-OnlyInUse = record { no_line = refl; no_name = refl; no_code = refl; in_use = refl }

form-filled : is_missing form ≡ false
form-filled = refl

handle_submit-Exists_example :
    handle_submit form (some (refused (some (parse_transaction_error in_use)) (text "Error")))
    ≡ record {
      error = some (parse_transaction_error in_use);
      actions = update_data (fill form) ∷ [];
      toasts = parse_transaction_error in_use ∷ [];
      registers = false;
    }
handle_submit-Exists_example =
    handle_submit-Exists form in_use (text "Error") form-filled (inl in_use-OnlyInUse)

abbrev searching : State
searching = reducer initial_state (select_path lender)

abbrev viewing : State
viewing = reduce_all searching (update_data (set_cadastral (text "KZ11-0033-001")) ∷ go_next ∷ [])

lender-other : lender ≢ none_path
lender-other = λ e. cc

number-some : text "KZ11-0033-001" ≢ []
number-some = λ e. cc

viewing-Reachable : Reachable viewing
unfolding reducer
viewing-Reachable =
    next searching viewing (next initial_state searching start (chooses lender lender-other))
      (finds (text "KZ11-0033-001") number-some refl refl)

Reachable-Walks_example : Walks viewing
Reachable-Walks_example = Reachable-Walks viewing viewing-Reachable
