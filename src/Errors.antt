-- ===== src/Errors.antt =====
-- The error messages of web/src/solana/transaction.ts: `extractErrorString`, `parseTransactionError`
-- and the table `ANCHOR_ERROR_NAMES`. The two regular expressions need no backtracking, and are
-- written as parsers that are tried at each position in turn. Left out: an anchor error named like
-- a property of `Object.prototype`, for which the table's lookup gives no string.
pub mod Messages
pub mod Bounds
pub mod Codes
pub mod Anchor
use terra_ledger.Base.{ℕ, ◌+◌, ◌*◌, ◌-◌, List, [], ◌∷◌, ◌++◌, length}
use terra_ledger.Base.{
  Bool, true, false, not, ◌&&◌, ◌||◌, Option, none, some, leb, ◌==◌, if◌then◌else◌,
}
use terra_ledger.Base.{Text, text, strip_prefix, span, join_spaces}

-- A value that is only stringified: `JSON.stringify` of it, `none` where that throws, and `String`.
pub record Opaque : Type 0 where
  pub json : Option Text
  pub shown : Text

unfoldable pub safe_stringify : Opaque → Text
safe_stringify val = elim val.json [ none ↦ val.shown | some s ↦ s ]

-- `data`: a string or another value
pub data DataValue : Type 0 where
  data_text : Text → DataValue
  data_other : Opaque → DataValue

-- The properties that are looked at; `none` where one is missing, of another type, or falsy.
pub record Context : Type 0 where
  pub cause_message : Option Text
  pub logs : Option (List Text)
  pub preflight_logs : Option (List Text)
  pub transaction_plan_result : Option Opaque

pub record Props : Type 0 where
  pub context : Option Context
  pub logs : Option (List Text)
  pub transaction_plan_result : Option Opaque
  pub data' : Option DataValue

-- What can be thrown: an `Error` has a message, a cause (`absent` where there is none) and perhaps
-- more properties. A number, boolean or bigint is `other`, with its truth and its text.
pub data ErrorValue : Type 0 where
  absent null_value : ErrorValue
  string : Text → ErrorValue
  other : Bool → Text → ErrorValue
  object : Props → ErrorValue
  js_error : (message : Text) → (cause : ErrorValue) → Props → ErrorValue

abbrev pub truthy : ErrorValue → Bool
truthy absent = false
truthy null_value = false
truthy (string s) = not (length s == 0)
truthy (other b s) = b
truthy (object p) = true
truthy (js_error m c p) = true

-- `if (x) parts.push(f(x))`
abbrev pub part_of {ℓ} : {A : Type ℓ} → (A → Text) → Option A → List Text
part_of f none = []
part_of f (some a) = f a ∷ []

abbrev pub data_string : DataValue → Text
data_string (data_text s) = s
data_string (data_other val) = safe_stringify val

abbrev pub context_parts : Option Context → List Text
context_parts none = []
context_parts (some ctx) =
    part_of (λ s. s) ctx.cause_message
    ++ (part_of join_spaces ctx.logs
        ++ (part_of join_spaces ctx.preflight_logs
            ++ part_of safe_stringify ctx.transaction_plan_result))

-- what the second half of `extractErrorString` pushes for an object
unfoldable pub props_parts : Props → List Text
props_parts obj =
    context_parts obj.context
    ++ (part_of join_spaces obj.logs
        ++ (part_of safe_stringify obj.transaction_plan_result ++ part_of data_string obj.data'))

unfoldable pub extract_error_string : ErrorValue → Text
extract_error_string absent = []
extract_error_string null_value = []
extract_error_string (string s) = s
extract_error_string (other b s) = []
extract_error_string (object obj) = join_spaces (props_parts obj)
extract_error_string (js_error message cause obj) =
    let from_cause = extract_error_string cause ∷ [] in
    join_spaces (message ∷ ((if truthy cause then from_cause else []) ++ props_parts obj))

abbrev pub is_digit : ℕ → Bool
is_digit c = leb 48 c && leb c 57

-- `\w`
abbrev pub is_word : ℕ → Bool
is_word c = (is_digit c || (leb 65 c && leb c 90)) || ((leb 97 c && leb c 122) || c == 95)

-- `\s`
abbrev pub is_space : ℕ → Bool
is_space c =
    (((leb 9 c && leb c 13) || c == 32) || (c == 160 || c == 0x1680))
    || (((leb 0x2000 c && leb c 0x200a) || (c == 0x2028 || c == 0x2029))
        || ((c == 0x202f || c == 0x205f) || (c == 0x3000 || c == 0xfeff)))

abbrev pub is_hex : ℕ → Bool
is_hex c = (is_digit c || (leb 65 c && leb c 70)) || (leb 97 c && leb c 102)

infixl 5 ◌>>=◌
abbrev ◌>>=◌ {ℓ κ} : {A : Type ℓ} {B : Type κ} → Option A → (A → Option B) → Option B
none >>= k = none
some a >>= k = k a

-- `[class]+`: at least one code unit
unfoldable pub some_of : (ℕ → Bool) → Text → Option (Text × Text)
some_of p s = let (front, rest) = span p s in if length front == 0 then none else some (front, rest)

-- /Error Code: (\w+)\.\s*Error Number: \d+\.\s*Error Message: ([^.]+)/ at the start of `s`
unfoldable pub anchor_match_at : Text → Option (Text × Text)
anchor_match_at s = do
  s1 ← strip_prefix (text "Error Code: ") s
  (name, s2) ← some_of is_word s1
  s3 ← strip_prefix (text ".") s2
  s4 ← strip_prefix (text "Error Number: ") (span is_space s3).1
  (_, s5) ← some_of is_digit s4
  s6 ← strip_prefix (text ".") s5
  s7 ← strip_prefix (text "Error Message: ") (span is_space s6).1
  (message, _) ← some_of (λ c. not (c == 46)) s7
  some (name, message)

-- /custom program error: 0x([0-9a-fA-F]+)/ at the start of `s`
unfoldable pub hex_match_at : Text → Option Text
hex_match_at s = do
  s1 ← strip_prefix (text "custom program error: 0x") s
  (digits, _) ← some_of is_hex s1
  some digits

-- the first position at which a pattern matches
unfoldable pub first_match {ℓ} : {A : Type ℓ} → (Text → Option A) → Text → Option A
first_match at [] = at []
first_match at (c ∷ s) =
    let later = first_match at s in elim (at (c ∷ s)) [ none ↦ later | some a ↦ some a ]

abbrev pub hex_digit : ℕ → ℕ
hex_digit c = if leb c 57 then c - 48 else if leb c 70 then c - 55 else c - 87

-- `parseInt(digits, 16)`
unfoldable pub parse_hex : ℕ → Text → ℕ
parse_hex acc [] = acc
parse_hex acc (c ∷ s) = parse_hex (acc * 16 + hex_digit c) s
