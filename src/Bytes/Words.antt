-- ===== src/Bytes/Words.antt =====
-- Numbers as little-endian bytes.
use native.Mathlib.Nat.{pow-suc}
use terra_ledger.Base.{◌%◌, ◌*◌, ◌+◌, ℕ, zero, suc, ◌/◌, ◌^◌, ◌<◌, ◌≡◌, refl, ap, arith}
use terra_ledger.Base.{length}
use terra_ledger.Bytes.{IsBytes, le_value, le_bytes, ℤ, pos, negsuc, to_i64, of_i64, IsI64}

mod_mul : (v p : ℕ) → v % (p * 256) ≡ v % 256 + 256 * (v / 256 % p)
mod_mul v p = grind arith

pub length-le_bytes : (n v : ℕ) → length (le_bytes n v) ≡ n
unfolding le_bytes
length-le_bytes zero v = refl
length-le_bytes (suc n) v = ap suc (length-le_bytes n (v / 256))

pub le_bytes-IsBytes : (n v : ℕ) → IsBytes (le_bytes n v)
unfolding le_bytes
le_bytes-IsBytes zero v = tt
le_bytes-IsBytes (suc n) v = (omega arith, le_bytes-IsBytes n (v / 256))

pub le_value-le_bytes : (n v : ℕ) → v < 256 ^ n → le_value (le_bytes n v) ≡ v
unfolding le_bytes le_value
le_value-le_bytes zero v h = omega arith
le_value-le_bytes (suc n) v h =
    omega (arith, pow-suc 256 n, le_value-le_bytes n (v / 256) (omega (arith, pow-suc 256 n)))

-- Only the lowest `n` bytes of a number are written.
pub le_value-le_bytes_mod : (n v : ℕ) → le_value (le_bytes n v) ≡ v % 256 ^ n
unfolding le_bytes le_value
le_value-le_bytes_mod zero v = omega arith
le_value-le_bytes_mod (suc n) v =
    rw (pow-suc 256 n, mod_mul v (256 ^ n), le_value-le_bytes_mod n (v / 256))

pub to_i64-of_i64 : (z : ℤ) → IsI64 z → to_i64 (of_i64 z) ≡ z
to_i64-of_i64 (pos n) h = ground arith
to_i64-of_i64 (negsuc n) h = ground arith

pub of_i64-lt : (z : ℤ) → IsI64 z → of_i64 z < 2 ^ 64
of_i64-lt (pos n) h = omega arith
of_i64-lt (negsuc n) h = omega arith
