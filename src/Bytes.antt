-- ===== src/Bytes.antt =====
-- Byte arrays (`Uint8Array`) and the little-endian accesses of `DataView` that
-- web/src/solana/accounts.ts and web/src/solana/program.ts use. An array is the list of its bytes
-- and is the whole of its buffer, as in every array that those files allocate. Offsets and lengths
-- are natural numbers, and an array is not limited in length.
pub mod Equality
pub mod Words
pub mod Writes
use terra_ledger.Base.{
  ◌==◌, ◌&&◌, Bool, true, false, ℕ, zero, suc, ◌+◌, ◌-◌, ◌*◌, ◌/◌, ◌%◌, ◌^◌, ◌<◌,
}
use terra_ledger.Base.{List, [], ◌∷◌, ◌++◌, length, take, drop, replicate, All}
use terra_ledger.Base.{Outcome, ok, throws, range_error, ltb, leb, if◌then◌else◌}

abbrev pub Bytes : Type 0
Bytes = List ℕ

abbrev pub IsByte : ℕ → Type 0
IsByte b = b < 256

abbrev pub IsBytes : Bytes → Type 0
IsBytes = All IsByte

-- Whether two arrays hold the same bytes.
abbrev pub bytes_eq : Bytes → Bytes → Bool
bytes_eq [] [] = true
bytes_eq (a ∷ xs) (b ∷ ys) = a == b && bytes_eq xs ys
bytes_eq _ _ = false

-- `negsuc n` is -(n + 1).
pub data ℤ : Type 0 where
  pos : ℕ → ℤ
  negsuc : ℕ → ℤ

-- `new Uint8Array(n)`
abbrev pub zeros : ℕ → Bytes
zeros n = replicate n 0

-- `data.slice(from, to)`
abbrev pub slice : Bytes → ℕ → ℕ → Bytes
slice data' from to = take (to - from) (drop from data')

-- `out.set(src, offset)`
unfoldable pub set : Bytes → ℕ → Bytes → Outcome Bytes
set out offset src =
    if leb (offset + length src) (length out)
    then ok (take offset out ++ (src ++ drop (offset + length src) out))
    else throws range_error

-- The number that bytes stand for, lowest byte first, and the lowest `n` bytes of a number.
unfoldable pub le_value : Bytes → ℕ
le_value [] = 0
le_value (b ∷ bs) = b + 256 * le_value bs

unfoldable pub le_bytes : ℕ → ℕ → Bytes
le_bytes zero v = []
le_bytes (suc n) v = (v % 256) ∷ le_bytes n (v / 256)

-- The unsigned getters of `DataView` with `littleEndian` true, for `n` bytes, and the setters.
unfoldable pub get_uint : ℕ → Bytes → ℕ → Outcome ℕ
get_uint n data' offset =
    if leb (offset + n) (length data')
    then ok (le_value (slice data' offset (offset + n)))
    else throws range_error

unfoldable pub set_uint : ℕ → Bytes → ℕ → ℕ → Outcome Bytes
set_uint n out offset value = set out offset (le_bytes n value)

-- The integer whose two's complement in 64 bits is `w`, and back.
abbrev pub to_i64 : ℕ → ℤ
to_i64 w = if ltb w (2 ^ 63) then pos w else negsuc (2 ^ 64 - 1 - w)

abbrev pub of_i64 : ℤ → ℕ
of_i64 (pos n) = n
of_i64 (negsuc n) = 2 ^ 64 - 1 - n

abbrev pub IsI64 : ℤ → Type 0
IsI64 (pos n) = n < 2 ^ 63
IsI64 (negsuc n) = n < 2 ^ 63
