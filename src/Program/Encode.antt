-- ===== src/Program/Encode.antt =====
-- What the encoders of web/src/solana/program.ts write.
use terra_ledger.Base.{ℕ, ◌+◌, ◌≡◌, refl, ◌∙◌, ap, arith, [], ◌++◌, length, append-nil}
use terra_ledger.Base.{ok, Text}
use terra_ledger.Bytes.{Bytes, set_uint, le_bytes}
use terra_ledger.Bytes.Words.{length-le_bytes}
use terra_ledger.Bytes.Writes.{set_next, set_uint-zeros}
use terra_ledger.Platform.{Kit}
use terra_ledger.Program.{encode_u64_le, encode_u32_le, encode_u16_le, encode_string}

pub encode_u64_le_bytes : (v : ℕ) → encode_u64_le v ≡ ok (le_bytes 8 v)
unfolding encode_u64_le
encode_u64_le_bytes v = set_uint-zeros 8 v

pub encode_u32_le_bytes : (v : ℕ) → encode_u32_le v ≡ ok (le_bytes 4 v)
unfolding encode_u32_le
encode_u32_le_bytes v = set_uint-zeros 4 v

pub encode_u16_le_bytes : (v : ℕ) → encode_u16_le v ≡ ok (le_bytes 2 v)
unfolding encode_u16_le
encode_u16_le_bytes v = set_uint-zeros 2 v

-- The Borsh form of a string: its length in four bytes, and its bytes.
abbrev pub borsh_string : Bytes → Bytes
borsh_string bytes = le_bytes 4 (length bytes) ++ bytes

pub encode_string_bytes :
    (kit : Kit) (s : Text) → encode_string kit s ≡ ok (borsh_string (kit.utf8_encode s))
unfolding encode_string set_uint
encode_string_bytes kit s =
    let b : Bytes = kit.utf8_encode s in
    let head : Bytes = le_bytes 4 (length b) in
    let len : length head ≡ 4 = length-le_bytes 4 (length b) in
    rw (set_next [] head (4 + length b) (length b) 0 (omega arith) refl)
      (set_next head b (length b) 0 4 (omega arith) (omega arith) ∙ ap ok (append-nil (head ++ b)))
