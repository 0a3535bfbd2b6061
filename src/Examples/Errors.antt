-- ===== src/Examples/Errors.antt =====
-- Errors as the wallet and the cluster report them, and what `parseTransactionError` shows.
use terra_ledger.Base.{
  ◌≡◌, ◌≢◌, refl, arith, List, [], ◌∷◌, ◌++◌, length, none, some, Text, text, includes,
  strip_prefix, span, join_spaces, decimal, decimal_digits, ◌≤◌,
}
use terra_ledger.Errors.{
  ErrorValue, absent, js_error, Props, extract_error_string, anchor_match_at, hex_match_at, some_of,
  props_parts, first_match, parse_hex,
}
use terra_ledger.Errors.Messages.{
  anchor_error_names, is_among, message_of, first_named, parse_raw, parse_transaction_error,
}
use terra_ledger.Errors.Bounds.{length-parse_transaction_error}
use terra_ledger.Errors.Codes.{OnlyCode, terra_codes, cadastral_too_long, parcel_not_verified}
use terra_ledger.Errors.Anchor.{anchor_line, Skips, parse_transaction_error-anchor}

abbrev no_props : Props
no_props = record { context = none; logs = none; transaction_plan_result = none; data' = none }

-- an error with the message "failed", whose context holds logs
abbrev with_logs : List Text → ErrorValue
with_logs logs = js_error (text "failed") absent (record no_props {
  context = some (record {
    cause_message = none;
    logs = some logs;
    preflight_logs = none;
    transaction_plan_result = none;
  });
})

abbrev code_log : Text
code_log = text "Program failed: custom program error: 0x1770"

code_log-OnlyCode : OnlyCode code_log 6000
unfolding first_match anchor_match_at hex_match_at strip_prefix some_of span first_named includes
    parse_hex
code_log-OnlyCode = record {
  digits = text "1770";
  no_line = refl;
  no_name = refl;
  found = refl;
  value = refl;
}

cadastral_too_long-other : cadastral_too_long ≢ parcel_not_verified
cadastral_too_long-other = λ e. cc

terra_codes_example :
    some (parse_raw code_log (text "failed"))
    ≢ message_of (text "CadastralTooLong") anchor_error_names
terra_codes_example =
    terra_codes code_log (text "failed") cadastral_too_long cadastral_too_long-other
      code_log-OnlyCode

code_log-unmatched :
    first_match anchor_match_at (extract_error_string (with_logs (code_log ∷ []))) ≡ none
unfolding extract_error_string props_parts join_spaces first_match anchor_match_at strip_prefix
    some_of span
code_log-unmatched = refl

length-parse_transaction_error_example :
    length (parse_transaction_error (with_logs (code_log ∷ []))) ≤ 203
length-parse_transaction_error_example =
    length-parse_transaction_error (with_logs (code_log ∷ [])) code_log-unmatched

abbrev anchor_log : List Text
anchor_log =
    text "Program log: AnchorError occurred."
    ∷ text "Error Code: InvalidLTV. Error Number: 6011. Error Message: LTV must be below 100."
    ∷ []

abbrev anchor_front : Text
anchor_front = text "failed Program log: AnchorError occurred. "

anchor_log-extracted :
    extract_error_string (with_logs anchor_log)
    ≡ anchor_front ++ anchor_line (text "InvalidLTV") 6011 (text "LTV must be below 100") []
unfolding extract_error_string props_parts join_spaces decimal decimal_digits
anchor_log-extracted = refl

anchor_front-Skips :
    Skips anchor_match_at anchor_front
      (anchor_line (text "InvalidLTV") 6011 (text "LTV must be below 100") [])
unfolding anchor_match_at strip_prefix
anchor_front-Skips = ground arith

parse_transaction_error-anchor_example :
    parse_transaction_error (with_logs anchor_log) ≡ text "InvalidLTV: LTV must be below 100"
unfolding message_of is_among
parse_transaction_error-anchor_example =
    parse_transaction_error-anchor (with_logs anchor_log) anchor_front (text "InvalidLTV") 6011
      (text "LTV must be below 100") [] anchor_log-extracted anchor_front-Skips (ground arith)
      (ground arith) refl
