-- ===== src/Program/Readers.antt =====
-- The on-chain readers of `Wire` on what the encoders write.
use terra_ledger.Base.{ℕ, ◌%◌, ◌^◌, ◌<◌, ◌≡◌, refl, arith, [], ◌++◌}
use terra_ledger.Base.{append_assoc, length, length-append, take-append, drop-append}
use terra_ledger.Base.{le→leb, none, some}
use terra_ledger.Bytes.{Bytes, le_bytes}
use terra_ledger.Bytes.Words.{length-le_bytes, le_value-le_bytes_mod}
use terra_ledger.Program.Encode.{borsh_string}
use terra_ledger.Program.Wire.{take_bytes, take_uint, take_string}

pub take_bytes-append :
    (n : ℕ) (piece rest : Bytes)
    → length piece ≡ n
    → take_bytes n (piece ++ rest) ≡ some (piece, rest)
unfolding take_bytes
take_bytes-append n piece rest h = rw (
  ← h,
  le→leb (length piece) (length (piece ++ rest)) (omega (arith, length-append piece rest)),
  take-append piece rest,
  drop-append piece rest,
)

pub take_uint-append :
    (n v : ℕ) (rest : Bytes) → take_uint n (le_bytes n v ++ rest) ≡ some (v % 256 ^ n, rest)
unfolding take_uint
take_uint-append n v rest =
    rw (take_bytes-append n (le_bytes n v) rest (length-le_bytes n v), le_value-le_bytes_mod n v)

pub take_string-append :
    (b rest : Bytes) → length b < 2 ^ 32 → take_string (borsh_string b ++ rest) ≡ some (b, rest)
unfolding take_string
take_string-append b rest h =
    let fits : length b % 256 ^ 4 ≡ length b = omega arith in
    rw
      (append_assoc (le_bytes 4 (length b)) b rest, take_uint-append 4 (length b) (b ++ rest), fits)
      (take_bytes-append (length b) b rest refl)

-- A string cannot be read where no bytes are left.
pub take_string-nil : take_string [] ≡ none
unfolding take_string take_uint take_bytes
take_string-nil = refl
