-- ===== src/Errors/Anchor.antt =====
-- The line that Anchor logs for an error, read by the first regular expression of
-- `parseTransactionError`.
use terra_ledger.Base.{
  ℕ, zero, suc, ◌+◌, ◌/◌, ◌%◌, ◌<◌, ◌≡◌, refl, arith, [], ◌∷◌, ◌++◌, length, All,
}
use terra_ledger.Base.{
  Bool, Bool-cases, inl, inr, true, false, not, ◌==◌, Option, none, some, Text, text,
}
use terra_ledger.Base.{strip_prefix, span, span-append, decimal, decimal_digits, ltb}
use terra_ledger.Errors.{
  ErrorValue, extract_error_string, is_word, is_digit, some_of, anchor_match_at, first_match,
}
use terra_ledger.Errors.Messages.{
  anchor_error_names, inherited_names, is_among, message_of, parse_raw, shown,
  parse_transaction_error,
}

-- `Error Code: name. Error Number: number. Error Message: message.` and what follows it
abbrev pub anchor_line : Text → ℕ → Text → Text → Text
anchor_line name number message rest =
    text "Error Code: "
    ++ (name
        ++ (text ". Error Number: "
            ++ (decimal number ++ (text ". Error Message: " ++ (message ++ (text "." ++ rest))))))

-- `\w+`
abbrev pub IsName : Text → Type 0
IsName name = All (λ x. is_word x ≡ true) name × (0 < length name)

-- `[^.]+`
abbrev pub IsSentence : Text → Type 0
IsSentence message = All (λ x. not (x == 46) ≡ true) message × (0 < length message)

strip_prefix-append : (pattern s : Text) → strip_prefix pattern (pattern ++ s) ≡ some s
unfolding strip_prefix
strip_prefix-append [] s = refl
strip_prefix-append (c ∷ pattern) s = ground (arith, strip_prefix-append pattern s)

suc_not_zero : (n : ℕ) → (suc n == 0) ≡ false
suc_not_zero n = ground arith

-- `[class]+` takes the code units of the class up to the first that is not.
some_of-append :
    (p : ℕ → Bool) (front : Text) (c : ℕ) (s : Text)
    → All (λ x. p x ≡ true) front
    → 0 < length front
    → p c ≡ false
    → some_of p (front ++ (c ∷ s)) ≡ some (front, c ∷ s)
unfolding some_of
some_of-append p [] c s all more stop = absurd (omega arith)
some_of-append p (x ∷ front) c s all more stop =
    rw (span-append p (x ∷ front) c s all stop, suc_not_zero (length front)) refl

digit-IsDigit : (n : ℕ) → is_digit (n % 10 + 48) ≡ true
digit-IsDigit n = ground arith

decimal_digits-IsDigits :
    (fuel n : ℕ) (acc : Text)
    → All (λ x. is_digit x ≡ true) acc
    → All (λ x. is_digit x ≡ true) (decimal_digits fuel n acc)
unfolding decimal_digits
decimal_digits-IsDigits zero n acc all = all
decimal_digits-IsDigits (suc fuel) n acc all = elim (Bool-cases (ltb n 10)) [
  | inl last ↦ rw last (digit-IsDigit n, all)
  | inr more ↦ rw more (decimal_digits-IsDigits fuel (n / 10) _ (digit-IsDigit n, all))
]

length-decimal_digits :
    (fuel n : ℕ) (acc : Text) → 0 < length acc → 0 < length (decimal_digits fuel n acc)
unfolding decimal_digits
length-decimal_digits zero n acc all = all
length-decimal_digits (suc fuel) n acc all =
    ground (arith, length-decimal_digits fuel (n / 10) ((n % 10 + 48) ∷ acc))

decimal-IsDigits : (n : ℕ) → All (λ x. is_digit x ≡ true) (decimal n)
unfolding decimal
decimal-IsDigits n = decimal_digits-IsDigits 20 n [] tt

length-decimal : (n : ℕ) → 0 < length (decimal n)
unfolding decimal
length-decimal n = ground (arith, length-decimal_digits 19 (n / 10) ((n % 10 + 48) ∷ []))

anchor_match_at-line :
    (name : Text) (number : ℕ) (message rest : Text)
    → IsName name
    → IsSentence message
    → anchor_match_at (anchor_line name number message rest) ≡ some (name, message)
unfolding anchor_match_at strip_prefix span
anchor_match_at-line name number message rest (ws, w) (ms, m) =
    rw
      (
        some_of-append is_word name 46 _ ws w refl,
        some_of-append is_digit (decimal number) 46 _ (decimal-IsDigits number)
            (length-decimal number) refl,
        some_of-append (λ c. not (c == 46)) message 46 rest ms m refl,
      )
      refl

-- Before `s`, the expression matches at no position of `front`.
abbrev pub Skips {ℓ} : {A : Type ℓ} → (Text → Option A) → Text → Text → Type ℓ
Skips at [] s = Unit
Skips at (c ∷ front) s = (at (c ∷ (front ++ s)) ≡ none) × Skips at front s

first_match-here {ℓ} :
    {A : Type ℓ} (at : Text → Option A) (s : Text) (a : A)
    → at s ≡ some a
    → first_match at s ≡ some a
unfolding first_match
first_match-here at [] a e = e
first_match-here at (c ∷ s) a e = rw (e, first_match) refl

first_match-skip {ℓ} :
    {A : Type ℓ} (at : Text → Option A) (front s : Text) (a : A)
    → Skips at front s
    → at s ≡ some a
    → first_match at (front ++ s) ≡ some a
unfolding first_match
first_match-skip at [] s a skips e = first_match-here at s a e
first_match-skip at (c ∷ front) s a (p, skips) e =
    rw (p, first_match-skip at front s a skips e, first_match) refl

-- the entry of the table, or the name and Anchor's own message
abbrev pub described : Text → Text → Text
described name message = elim (message_of name anchor_error_names) [
  | some known ↦ known
  | none ↦ name ++ (text ": " ++ message)
]

parse_raw-matched :
    (raw msg name message : Text)
    → first_match anchor_match_at raw ≡ some (name, message)
    → parse_raw raw msg ≡ described name message
unfolding parse_raw
parse_raw-matched raw msg name message e = rw (e, parse_raw) refl

-- Where the texts of what was thrown are some text at no position of which the expression matches,
-- then Anchor's line for an error, then anything: the message shown is the table's for the error's
-- name, and the name with Anchor's message where the table has none. The name is made of one or
-- more word characters and is no property that objects inherit, and Anchor's message is not empty
-- and has no full stop.
pub parse_transaction_error-anchor :
    (err : ErrorValue) (front name : Text) (number : ℕ) (message rest : Text)
    → extract_error_string err ≡ front ++ anchor_line name number message rest
    → Skips anchor_match_at front (anchor_line name number message rest)
    → IsName name
    → IsSentence message
    → is_among name inherited_names ≡ false
    → parse_transaction_error err ≡ described name message
unfolding parse_transaction_error
parse_transaction_error-anchor err front name number message rest e skips n m own =
    parse_raw-matched (extract_error_string err) (shown err) name message (
      rw e (
        first_match-skip anchor_match_at front _ (name, message) skips
          (anchor_match_at-line name number message rest n m)))
