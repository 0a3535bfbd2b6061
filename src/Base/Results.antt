-- ===== src/Base/Results.antt =====
-- What a JavaScript function, or the promise of an async one, comes to: a value, or what is thrown.
use Prim.Native.Nat.{ℕ}
use mathlib.Core.Path.{◌≡◌, refl}
use mathlib.Core.List.{List, [], ◌∷◌, ◌++◌}
use mathlib.Core.Logic.{◌⊎◌, inl, inr}

-- `range_error` and `type_error` are those of the language, `error` is `new Error(message)`, with
-- the message as UTF-16 code units. `foreign` is whatever a call of other code throws, numbered by
-- that code.
pub data Thrown : Type 0 where
  range_error type_error : Thrown
  error : List ℕ → Thrown
  foreign : ℕ → Thrown

pub data Outcome {ℓ} (A : Type ℓ) : Type ℓ where
  ok : A → Outcome A
  throws : Thrown → Outcome A

infixl 5 ◌>>=◌
abbrev pub ◌>>=◌ {ℓ κ} : {A : Type ℓ} {B : Type κ} → Outcome A → (A → Outcome B) → Outcome B
ok a >>= f = f a
throws e >>= f = throws e

module _ {ℓ κ} {A : Type ℓ} {B : Type κ} where
  pub bind-eq-ok :
      (m : Outcome A) (f : A → Outcome B) {b : B}
      → (m >>= f) ≡ ok b
      → (a : A) × (m ≡ ok a) × (f a ≡ ok b)
  bind-eq-ok (ok a) f h = (a, refl, h)
  bind-eq-ok (throws e) f h = cc

  -- `xs.map(f)` for an `f` that may throw
  unfoldable pub map_outcome : (A → Outcome B) → List A → Outcome (List B)
  map_outcome f [] = ok []
  map_outcome f (x ∷ xs) = do y ← f x; ys ← map_outcome f xs; ok (y ∷ ys)

module _ {ℓ} {A : Type ℓ} where
  pub Outcome-cases : (m : Outcome A) → ((a : A) × (m ≡ ok a)) ⊎ ((e : Thrown) × (m ≡ throws e))
  Outcome-cases (ok a) = inl (a, refl)
  Outcome-cases (throws e) = inr (e, refl)

module _ {ℓ κ} {A : Type ℓ} {B : Type κ} where
  -- What comes after a step throws, whatever the step gives.
  pub bind_throws :
      (m : Outcome A) (f : A → Outcome B)
      → ((a : A) → (e : Thrown) × (f a ≡ throws e))
      → (e : Thrown) × ((m >>= f) ≡ throws e)
  bind_throws (ok a) f h = h a
  bind_throws (throws e) f h = (e, refl)

  -- A step that returns, before a rest that returns.
  pub bind_total :
      (m : Outcome A) (f : A → Outcome B)
      → (a : A) × (m ≡ ok a)
      → ((a : A) → (b : B) × (f a ≡ ok b))
      → (b : B) × ((m >>= f) ≡ ok b)
  bind_total m f (a, e) h = let (b, k) = h a in (b, rw e k)

  bind_throw_first :
      (m : Outcome A) (f : A → Outcome B)
      → (e : Thrown) × (m ≡ throws e)
      → (e : Thrown) × ((m >>= f) ≡ throws e)
  bind_throw_first m f (e, h) = (e, rw h)

module _ {ℓ κ} {A : Type ℓ} {B : Type κ} where
  -- One element that throws makes the whole `map` throw.
  pub map_outcome_throws :
      (f : A → Outcome B) (xs ys : List A) (x : A)
      → (e : Thrown) × (f x ≡ throws e)
      → (e : Thrown) × (map_outcome f (xs ++ (x ∷ ys)) ≡ throws e)
  unfolding map_outcome
  map_outcome_throws f [] ys x (e, h) = (e, rw h)
  map_outcome_throws f (y ∷ xs) ys x h =
      bind_throws (f y) _
        λ b. bind_throw_first (map_outcome f (xs ++ (x ∷ ys))) _ (map_outcome_throws f xs ys x h)
