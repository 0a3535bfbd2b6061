-- ===== src/Base/Decimal.antt =====
-- The fuel of `decimal` is enough: the digits of a number below 10 ^ 20 stand for the number.
use native.Mathlib.Nat.{pow-suc}
use Prim.Native.Nat.{ℕ, zero, suc, ◌+◌, ◌-◌, ◌*◌, ◌/◌, ◌%◌, ◌^◌, ◌<◌}
use mathlib.Core.List.{[], ◌∷◌}
use mathlib.Core.Logic.{inl, inr}
use mathlib.Core.Path.{◌≡◌, ap, ◌∙◌}
use mathlib.Core.Bool.{true}
use native.Mathlib.Omega.{arith}
use terra_ledger.Base.Tests.{ltb, Bool-cases}
use terra_ledger.Base.Strings.{Text, decimal, decimal_digits}

-- The number that `v` and then the digits of a text stand for.
abbrev pub digits_value : Text → ℕ → ℕ
digits_value [] v = v
digits_value (c ∷ s) v = digits_value s (10 * v + (c - 48))

lt_of_ltb : (a b : ℕ) → ltb a b ≡ true → a < b
lt_of_ltb a b h = ground arith

ltb-true : (a b : ℕ) → a < b → ltb a b ≡ true
ltb-true a b h = ground arith

digits_value-decimal_digits :
    (fuel n : ℕ) (acc : Text)
    → n < 10 ^ suc fuel
    → digits_value (decimal_digits (suc fuel) n acc) 0 ≡ digits_value acc n
unfolding decimal_digits
digits_value-decimal_digits zero n acc h =
    rw (ltb-true n 10 h) (ap (digits_value acc) (omega (arith, h)))
digits_value-decimal_digits (suc fuel) n acc h = elim (Bool-cases (ltb n 10)) [
  | inl small ↦ rw small (ap (digits_value acc) (omega (arith, lt_of_ltb n 10 small)))
  | inr big ↦ rw big (
      digits_value-decimal_digits fuel (n / 10) ((n % 10 + 48) ∷ acc)
        (omega (arith, pow-suc 10 (suc fuel)))
      ∙ ap (digits_value acc) (omega arith))
]

-- Reading the digits back gives the number.
pub digits_value-decimal : (n : ℕ) → n < 10 ^ 20 → digits_value (decimal n) 0 ≡ n
unfolding decimal
digits_value-decimal n h = digits_value-decimal_digits 19 n [] h
