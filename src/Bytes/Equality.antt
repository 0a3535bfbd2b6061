-- ===== src/Bytes/Equality.antt =====
-- `bytes_eq` decides equality.
use mathlib.Core.Path.{ap₂}
use terra_ledger.Base.{◌≡◌, refl, arith, [], ◌∷◌, true, false, ◌⊎◌, inl, inr, Bool-cases, ◌==◌}
use terra_ledger.Base.{ℕ, ◌&&◌, Bool}
use terra_ledger.Bytes.{Bytes, bytes_eq}

pub bytes_eq_refl : (b : Bytes) → bytes_eq b b ≡ true
bytes_eq_refl [] = refl
bytes_eq_refl (x ∷ b) = ground (arith, bytes_eq_refl b)

both : (p q : Bool) → (p && q) ≡ true → (p ≡ true) × (q ≡ true)
both p q h = ground arith

head_eq : (x y : ℕ) → (x == y) ≡ true → x ≡ y
head_eq x y h = ground arith

pub bytes_eq_sound : (a b : Bytes) → bytes_eq a b ≡ true → a ≡ b
bytes_eq_sound [] [] h = refl
bytes_eq_sound [] (y ∷ b) h = cc
bytes_eq_sound (x ∷ a) [] h = cc
bytes_eq_sound (x ∷ a) (y ∷ b) h =
    let (p, q) = both (x == y) (bytes_eq a b) h in
    ap₂ (λ c d. c ∷ d) (head_eq x y p) (bytes_eq_sound a b q)

pub bytes_eq_cases : (a b : Bytes) → ((bytes_eq a b ≡ true) × (a ≡ b)) ⊎ (bytes_eq a b ≡ false)
bytes_eq_cases a b = elim (Bool-cases (bytes_eq a b)) [
  | inl same ↦ inl (same, bytes_eq_sound a b same)
  | inr other ↦ inr other
]
