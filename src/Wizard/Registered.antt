-- ===== src/Wizard/Registered.antt =====
-- Registering a parcel that exists on chain: the messages of `signAndSend` against the texts that
-- `handleSubmit` looks for.
use terra_ledger.Base.{
  Bool, true, false, ◌≡◌, refl, inl, inr, ◌⊎◌, ap, ◌∙◌, none, some, [], ◌∷◌, Text, text, includes,
  ◌||◌, if◌then◌else◌,
}
use terra_ledger.Errors.{
  ErrorValue, extract_error_string, anchor_match_at, hex_match_at, first_match,
}
use terra_ledger.Errors.Messages.{
  anchor_error_names, first_named, parse_raw, named_error, coded_error, common_error,
  parse_transaction_error, lien_exists_message, account_exists_message, shown, code_message,
  known_code,
}
use terra_ledger.Errors.Codes.{OnlyCode, parse_raw-OnlyCode}
use terra_ledger.Wizard.{
  Form, refused, update_data, fill, is_missing, is_already_registered, submit_filled, handle_submit,
}

-- The text says that an account is already in use, with no line, name or code of an error.
pub record OnlyInUse (raw : Text) : Type 0 where
  pub no_line : first_match anchor_match_at raw ≡ none
  pub no_name : first_named raw anchor_error_names ≡ none
  pub no_code : first_match hex_match_at raw ≡ none
  pub in_use : includes raw (text "already in use") ≡ true

-- one of the two messages for an account that exists
abbrev IsExists : Text → Type 0
IsExists message = (message ≡ lien_exists_message) ⊎ (message ≡ account_exists_message)

choose-IsExists : (b : Bool) → IsExists (if b then lien_exists_message else account_exists_message)
choose-IsExists true = inl refl
choose-IsExists false = inr refl

parse_raw-OnlyInUse : (raw msg : Text) → OnlyInUse raw → IsExists (parse_raw raw msg)
unfolding parse_raw named_error coded_error common_error
parse_raw-OnlyInUse raw msg only =
    rw
      (
        only.no_line, parse_raw, only.no_name, named_error, only.no_code, coded_error, only.in_use,
        common_error,
      )
      (choose-IsExists
        (includes raw (text "3qYHSTPeRLRD") || includes raw (text "RegisterEncumbrance")))

code_message-zero : (raw : Text) → IsExists (code_message raw 0)
unfolding code_message known_code
code_message-zero raw = choose-IsExists (
    includes raw (text "encumbrance")
    || (includes raw (text "lien") || includes raw (text "3qYHSTPeRLRD")))

lien_exists_message-unknown : is_already_registered lien_exists_message ≡ false
unfolding is_already_registered includes
lien_exists_message-unknown = refl

account_exists_message-unknown : is_already_registered account_exists_message ≡ false
unfolding is_already_registered includes
account_exists_message-unknown = refl

is_already_registered-IsExists :
    (message : Text) → IsExists message → is_already_registered message ≡ false
is_already_registered-IsExists message (inl e) =
    ap is_already_registered e ∙ lien_exists_message-unknown
is_already_registered-IsExists message (inr e) =
    ap is_already_registered e ∙ account_exists_message-unknown

-- What `signAndSend` says of an account that exists: a text that only says so, or only the code 0.
abbrev pub Exists : Text → Type 0
Exists raw = OnlyInUse raw ⊎ OnlyCode raw 0

parse_raw-Exists : (raw msg : Text) → Exists raw → IsExists (parse_raw raw msg)
parse_raw-Exists raw msg (inl only) = parse_raw-OnlyInUse raw msg only
parse_raw-Exists raw msg (inr only) = rw (parse_raw-OnlyCode raw msg 0 only) (code_message-zero raw)

-- Where a filled form is sent and the cluster answers that the account is in use, or with code 0 and
-- no more, `signAndSend` throws its own message for that, in which `handleSubmit` finds none of its
-- texts: the step shows that message as an error and does not go on to the profile.
pub handle_submit-Exists :
    (form : Form) (err : ErrorValue) (shown_text : Text)
    → is_missing form ≡ false
    → Exists (extract_error_string err)
    → handle_submit form (some (refused (some (parse_transaction_error err)) shown_text)) ≡ record {
      error = some (parse_transaction_error err);
      actions = update_data (fill form) ∷ [];
      toasts = parse_transaction_error err ∷ [];
      registers = false;
    }
unfolding handle_submit submit_filled parse_transaction_error
handle_submit-Exists form err shown_text filled exists =
    rw
      (
        filled,
        is_already_registered-IsExists (parse_raw (extract_error_string err) (shown err))
            (parse_raw-Exists (extract_error_string err) (shown err) exists),
      )
      refl
