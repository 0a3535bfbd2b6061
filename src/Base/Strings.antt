-- ===== src/Base/Strings.antt =====
-- JavaScript strings as sequences of UTF-16 code units.
use Prim.Native.Char.{code}
use Prim.Native.String.{String}
use Prim.Native.Nat.{ℕ, zero, suc, ◌+◌, ◌/◌, ◌%◌}
use mathlib.Core.Bool.{Bool, true, false, ◌||◌}
use mathlib.Core.List.{List, [], ◌∷◌, ◌++◌}
use mathlib.Core.Option.{Option, none, some}
use mathlib.Core.Path.{◌≡◌, refl}
use terra_ledger.Base.Lists.{All}
use terra_ledger.Base.Tests.{◌==◌, ltb, if◌then◌else◌}

abbrev pub Text : Type 0
Text = List ℕ

-- A literal of ASCII characters.
abbrev pub text : String → Text
text String.[] = []
text (String.◌∷◌ c s) = code c ∷ text s

-- `s` without `pattern` in front, where it begins with it.
unfoldable pub strip_prefix : Text → Text → Option Text
strip_prefix [] s = some s
strip_prefix (c ∷ pattern) [] = none
strip_prefix (c ∷ pattern) (d ∷ s) = if c == d then strip_prefix pattern s else none

abbrev pub is_some {ℓ} : {A : Type ℓ} → Option A → Bool
is_some none = false
is_some (some a) = true

-- `s.includes(pattern)`
unfoldable pub includes : Text → Text → Bool
unfolding strip_prefix
includes [] pattern = is_some (strip_prefix pattern [])
includes (c ∷ s) pattern = is_some (strip_prefix pattern (c ∷ s)) || includes s pattern

-- The longest prefix whose code units satisfy `p`, and the rest.
unfoldable pub span : (ℕ → Bool) → Text → Text × Text
span p [] = ([], [])
span p (c ∷ s) = let (front, rest) = span p s in if p c then (c ∷ front, rest) else ([], c ∷ s)

-- `parts.join(' ')`
unfoldable pub join_spaces : List Text → Text
join_spaces [] = []
join_spaces (part ∷ []) = part
join_spaces (part ∷ next ∷ parts) = part ++ (0x20 ∷ join_spaces (next ∷ parts))

-- A number in decimal; the fuel bounds the digits.
unfoldable pub decimal_digits : ℕ → ℕ → Text → Text
decimal_digits zero n acc = acc
decimal_digits (suc fuel) n acc =
    let digits = (n % 10 + 48) ∷ acc in
    let more = decimal_digits fuel (n / 10) digits in if ltb n 10 then digits else more

-- Every number below 10 ^ 20, and so every one that is at most 2 ^ 64, has 20 digits at most.
unfoldable pub decimal : ℕ → Text
unfolding decimal_digits
decimal n = decimal_digits 20 n []

pub span-append :
    (p : ℕ → Bool) (front : Text) (c : ℕ) (s : Text)
    → All (λ x. p x ≡ true) front
    → p c ≡ false
    → span p (front ++ (c ∷ s)) ≡ (front, c ∷ s)
unfolding span
span-append p [] c s all stop = rw stop refl
span-append p (x ∷ front) c s (px, all) stop = rw (px, span-append p front c s all stop) refl

pub span-All : (p : ℕ → Bool) (s : Text) → All (λ c. p c ≡ true) s → span p s ≡ (s, [])
unfolding span
span-All p [] h = refl
span-All p (c ∷ s) (q, h) = rw (q, span-All p s h) refl
