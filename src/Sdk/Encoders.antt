-- ===== src/Sdk/Encoders.antt =====
-- The encoding helpers of sdk/src/program.ts.
use terra_ledger.Base.{ℕ, ◌+◌, List, [], ◌∷◌, length, Outcome, ok, ◌>>=◌, Text}
use terra_ledger.Bytes.{Bytes, zeros, set, set_uint}
use terra_ledger.Platform.{Kit}

unfoldable pub encode_u64_le : ℕ → Outcome Bytes
encode_u64_le value = set_uint 8 (zeros 8) 0 value

unfoldable pub encode_u32_le : ℕ → Outcome Bytes
encode_u32_le value = set_uint 4 (zeros 4) 0 value

unfoldable pub encode_u16_le : ℕ → Outcome Bytes
encode_u16_le value = set_uint 2 (zeros 2) 0 value

-- `arrays.reduce((s, a) => s + a.length, 0)`
unfoldable pub total_length : ℕ → List Bytes → ℕ
total_length s [] = s
total_length s (a ∷ arrays) = total_length (s + length a) arrays

-- the loop of `concatBytes`
unfoldable pub concat_loop : Bytes → ℕ → List Bytes → Outcome Bytes
concat_loop out offset [] = ok out
concat_loop out offset (a ∷ arrays) = do
  out' ← set out offset a
  concat_loop out' (offset + length a) arrays

unfoldable pub concat_bytes : List Bytes → Outcome Bytes
concat_bytes arrays = concat_loop (zeros (total_length 0 arrays)) 0 arrays

unfoldable pub encode_string : Kit → Text → Outcome Bytes
encode_string kit value = do
  let str_bytes = kit.utf8_encode value
  buf ← set_uint 4 (zeros (4 + length str_bytes)) 0 (length str_bytes)
  set buf 4 str_bytes
