-- ===== src/Errors/Messages.antt =====
-- `parseTransactionError` of web/src/solana/transaction.ts and its table of messages.
use terra_ledger.Base.{ℕ, List, [], ◌∷◌, ◌++◌, length, take, Bool, false, ◌||◌, Option, none, some}
use terra_ledger.Base.{ltb, ◌==◌, if◌then◌else◌, Text, text, includes, decimal}
use terra_ledger.Bytes.{bytes_eq}
use terra_ledger.Errors.{
  ErrorValue, absent, null_value, string, other, object, js_error, extract_error_string,
  anchor_match_at, hex_match_at, first_match, parse_hex,
}

abbrev pub active_lien_message : Text
active_lien_message = text "Active lien already exists on this parcel (double-pledge prevented)"

abbrev pub not_verified_message : Text
not_verified_message = text "Parcel is not KYC verified"

abbrev pub unauthorized_release_message : Text
unauthorized_release_message = text "Only the lender can release this encumbrance"

abbrev pub not_active_message : Text
not_active_message = text "Encumbrance is not active"

abbrev pub invalid_amount_message : Text
invalid_amount_message = text "Lien amount must be greater than zero"

-- `ANCHOR_ERROR_NAMES`
abbrev pub anchor_error_names : List (Text × Text)
anchor_error_names =
    (text "CadastralTooLong", text "Cadastral number exceeds maximum length")
    ∷ (text "ParcelNotVerified", not_verified_message)
    ∷ (text "TooEarlyForSeasonalCheck", text "Too early for seasonal check (must wait 90 days)")
    ∷ (text "RiskFlagSet", text "Risk flag is set on this parcel")
    ∷ (text "InvalidLandClass", text "Invalid land class (must be 1-8)")
    ∷ (text "InvalidArea", text "Area must be greater than zero")
    ∷ (text "ActiveLienExists", active_lien_message)
    ∷ (text "UnauthorizedRelease", unauthorized_release_message)
    ∷ (text "EncumbranceNotActive", not_active_message)
    ∷ (text "InvalidAmount", invalid_amount_message)
    ∷ (
      text "AccountNotInitialized",
      text "Account not found on-chain (parcel may not be registered)",
    )
    ∷ (text "ConstraintHasOne", text "Account ownership check failed")
    ∷ []

-- The properties that every object inherits from `Object.prototype`.
abbrev pub inherited_names : List Text
inherited_names =
    text "constructor"
    ∷ text "toString"
    ∷ text "toLocaleString"
    ∷ text "valueOf"
    ∷ text "hasOwnProperty"
    ∷ text "isPrototypeOf"
    ∷ text "propertyIsEnumerable"
    ∷ text "__proto__"
    ∷ text "__defineGetter__"
    ∷ text "__defineSetter__"
    ∷ text "__lookupGetter__"
    ∷ text "__lookupSetter__"
    ∷ []

unfoldable pub is_among : Text → List Text → Bool
is_among name [] = false
is_among name (known ∷ names) = bytes_eq known name || is_among name names

-- `ANCHOR_ERROR_NAMES[name]`, for a name that is not among `inherited_names`: for such a name the
-- lookup gives what the object inherits, which is no string, and nothing is modelled.
unfoldable pub message_of : Text → List (Text × Text) → Option Text
message_of name [] = none
message_of name ((known, message) ∷ names) =
    if bytes_eq known name then some message else message_of name names

-- the loop of step 2
unfoldable pub first_named : Text → List (Text × Text) → Option Text
first_named raw [] = none
first_named raw ((known, message) ∷ names) =
    if includes raw known then some message else first_named raw names

abbrev pub lien_exists_message : Text
lien_exists_message = text "Lien already registered for this parcel"

abbrev pub account_exists_message : Text
account_exists_message = text "This account already exists on-chain"

-- `knownCodes[code]`
unfoldable pub known_code : Text → ℕ → Option Text
known_code raw code =
    if code == 0
    then some (
        if includes raw (text "encumbrance")
          || (includes raw (text "lien") || includes raw (text "3qYHSTPeRLRD"))
        then lien_exists_message
        else account_exists_message)
    else if code == 6000
    then some active_lien_message
    else if code == 6001
    then some not_verified_message
    else if code == 6002
    then some unauthorized_release_message
    else if code == 6003
    then some not_active_message
    else if code == 6004
    then some invalid_amount_message
    else none

-- For a code below 2 ^ 53, which `parseInt` gives exactly; the codes of programs are below 2 ^ 32. A
-- larger one, which JavaScript rounds and may print with an exponent, is left out.
unfoldable pub unknown_code : ℕ → Text
unknown_code code = text "Program error (code " ++ (decimal code ++ text ")")

unfoldable pub code_message : Text → ℕ → Text
code_message raw code = elim (known_code raw code) [
  | some message ↦ message
  | none ↦ unknown_code code
]

-- `err instanceof Error ? err.message : String(err)`
unfoldable pub shown : ErrorValue → Text
shown absent = text "undefined"
shown null_value = text "null"
shown (string s) = s
shown (other b s) = s
shown (object p) = text "[object Object]"
shown (js_error message cause p) = message

-- step 5
unfoldable pub truncate : Text → Text
truncate msg = if ltb 200 (length msg) then take 200 msg ++ text "..." else msg

-- steps 4 and 5
unfoldable pub common_error : Text → Text → Text
common_error raw msg =
    if includes raw (text "already in use")
    then (if includes raw (text "3qYHSTPeRLRD") || includes raw (text "RegisterEncumbrance")
        then lien_exists_message
        else account_exists_message)
    else if includes raw (text "User rejected") || includes raw (text "user rejected")
    then text "Transaction was rejected by the wallet"
    else if includes raw (text "insufficient") || includes raw (text "Insufficient")
    then text "Insufficient SOL balance for transaction fees"
    else if includes raw (text "blockhash") || includes raw (text "Blockhash")
    then text "Transaction expired. Please try again"
    else truncate msg

-- steps 3 to 5
unfoldable pub coded_error : Text → Text → Text
coded_error raw msg = elim (first_match hex_match_at raw) [
  | some digits ↦ code_message raw (parse_hex 0 digits)
  | none ↦ common_error raw msg
]

-- steps 2 to 5
unfoldable pub named_error : Text → Text → Text
named_error raw msg = elim (first_named raw anchor_error_names) [
  | some message ↦ message
  | none ↦ coded_error raw msg
]

unfoldable pub parse_raw : Text → Text → Text
parse_raw raw msg = elim (first_match anchor_match_at raw) [
  | some (name, message) ↦ elim (message_of name anchor_error_names) [
    | some known ↦ known
    | none ↦ name ++ (text ": " ++ message)
  ]
  | none ↦ named_error raw msg
]

unfoldable pub parse_transaction_error : ErrorValue → Text
parse_transaction_error err = parse_raw (extract_error_string err) (shown err)
