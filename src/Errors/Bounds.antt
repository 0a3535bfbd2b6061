-- ===== src/Errors/Bounds.antt =====
-- How long the messages of `parseTransactionError` are.
use terra_ledger.Base.{ℕ, zero, suc, ◌+◌, ◌/◌, ◌%◌, ◌≤◌, ◌≡◌, refl, arith, List, [], ◌∷◌}
use terra_ledger.Base.{
  length, take, length-append, length-take, All, Option, none, some, Text, text,
}
use terra_ledger.Base.{
  Bool, true, false, ltb, if◌then◌else◌, ◌||◌, includes, decimal, decimal_digits, Bool-cases, inl,
  inr,
}
use terra_ledger.Errors.{
  ErrorValue, extract_error_string, anchor_match_at, hex_match_at, first_match, parse_hex,
}
use terra_ledger.Errors.Messages.{
  anchor_error_names, first_named, known_code, unknown_code, lien_exists_message,
  account_exists_message, code_message, truncate, shown, common_error, coded_error, named_error,
  parse_raw, parse_transaction_error,
}

length-decimal_digits :
    (fuel n : ℕ) (acc : Text) → length (decimal_digits fuel n acc) ≤ length acc + fuel
unfolding decimal_digits
length-decimal_digits zero n acc = omega arith
length-decimal_digits (suc fuel) n acc =
    ground (arith, length-decimal_digits fuel (n / 10) ((n % 10 + 48) ∷ acc))

length-decimal : (n : ℕ) → length (decimal n) ≤ 20
unfolding decimal
length-decimal n = length-decimal_digits 20 n []

length-first_named :
    (raw : Text) (names : List (Text × Text)) (m : ℕ)
    → All (λ entry. length entry.1 ≤ m) names
    → (message : Text) → first_named raw names ≡ some message
    → length message ≤ m
unfolding first_named
length-first_named raw [] m h message e = cc
length-first_named raw ((known, text') ∷ names) m (p, h) message e =
    ground (arith, length-first_named raw names m h message)

length-known_code :
    (raw : Text) (code : ℕ) (message : Text)
    → known_code raw code ≡ some message
    → length message ≤ 80
unfolding known_code
length-known_code raw code message e = ground arith

length-choose :
    (b : Bool) (m : ℕ) (x y : Text) → length x ≤ m → length y ≤ m → length (if b then x else y) ≤ m
length-choose true m x y p q = p
length-choose false m x y p q = q

length-match {ℓ} :
    {A : Type ℓ} (m : ℕ) (found : Option A) (f : A → Text) (otherwise : Text)
    → ((a : A) → found ≡ some a → length (f a) ≤ m)
    → length otherwise ≤ m
    → length (elim found [ some a ↦ f a | none ↦ otherwise ]) ≤ m
length-match m none f otherwise h k = k
length-match m (some a) f otherwise h k = h a refl

length-unknown_code : (code : ℕ) → length (unknown_code code) ≤ 80
unfolding unknown_code
length-unknown_code code =
    omega (arith, length-append (decimal code) (text ")"), length-decimal code)

length-code_message : (raw : Text) (code : ℕ) → length (code_message raw code) ≤ 80
unfolding code_message
length-code_message raw code =
    length-match 80 (known_code raw code) _ _ (length-known_code raw code)
      (length-unknown_code code)

ltb_short : (a b : ℕ) → ltb a b ≡ false → b ≤ a
ltb_short a b short = ground arith

length-truncate : (msg : Text) → length (truncate msg) ≤ 203
unfolding truncate
length-truncate msg = elim (Bool-cases (ltb 200 (length msg))) [
  | inl long ↦
      rw long (omega (arith, length-append (take 200 msg) (text "..."), length-take 200 msg))
  | inr short ↦ rw short (omega (arith, ltb_short 200 (length msg) short))
]

-- The texts of steps 4 and 5 have at most 203 code units.
length-common_error : (raw msg : Text) → length (common_error raw msg) ≤ 203
unfolding common_error
length-common_error raw msg =
    length-choose (includes raw (text "already in use")) 203 _ _
      (length-choose
        (includes raw (text "3qYHSTPeRLRD") || includes raw (text "RegisterEncumbrance")) 203
        lien_exists_message account_exists_message (omega arith) (omega arith))
      (length-choose (includes raw (text "User rejected") || includes raw (text "user rejected"))
        203 (text "Transaction was rejected by the wallet") _ (omega arith)
        (length-choose (includes raw (text "insufficient") || includes raw (text "Insufficient"))
          203 (text "Insufficient SOL balance for transaction fees") _ (omega arith)
          (length-choose (includes raw (text "blockhash") || includes raw (text "Blockhash")) 203
            (text "Transaction expired. Please try again") (truncate msg) (omega arith)
            (length-truncate msg))))

length-coded_error : (raw msg : Text) → length (coded_error raw msg) ≤ 203
unfolding coded_error
length-coded_error raw msg =
    length-match 203 (first_match hex_match_at raw) _ _
      (λ digits e. omega (arith, length-code_message raw (parse_hex 0 digits)))
      (length-common_error raw msg)

names_short : All (λ entry. length entry.1 ≤ 203) anchor_error_names
names_short = ground arith

length-named_error : (raw msg : Text) → length (named_error raw msg) ≤ 203
unfolding named_error
length-named_error raw msg =
    length-match 203 (first_named raw anchor_error_names) _ _
      (length-first_named raw anchor_error_names 203 names_short) (length-coded_error raw msg)

parse_raw-unmatched :
    (raw msg : Text)
    → first_match anchor_match_at raw ≡ none
    → parse_raw raw msg ≡ named_error raw msg
unfolding parse_raw
parse_raw-unmatched raw msg e = rw (e, parse_raw) refl

-- The message shown for anything that is thrown has at most 203 UTF-16 code units, unless its texts
-- contain the line of an Anchor error.
pub length-parse_transaction_error :
    (err : ErrorValue)
    → first_match anchor_match_at (extract_error_string err) ≡ none
    → length (parse_transaction_error err) ≤ 203
unfolding parse_transaction_error
length-parse_transaction_error err unmatched =
    rw (parse_raw-unmatched (extract_error_string err) (shown err) unmatched)
      (length-named_error (extract_error_string err) (shown err))
