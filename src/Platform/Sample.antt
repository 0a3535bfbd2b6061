-- ===== src/Platform/Sample.antt =====
-- A `Kit` with executable functions that meets the laws: text as two bytes to a code unit, an
-- address as the text of its 32 bytes, and a derived address that is cut from its seeds.
use terra_ledger.Base.{ℕ, zero, suc, ◌+◌, ◌*◌, ◌/◌, ◌%◌, ◌≡◌, refl, sym, ap, ◌∙◌, arith}
use terra_ledger.Base.{[], ◌∷◌, ◌++◌, length, take, Outcome, ok, throws, foreign, Text}
use terra_ledger.Base.{◌==◌, ltb, if◌then◌else◌, flatten, map}
use terra_ledger.Bytes.{Bytes, IsBytes, zeros}
use terra_ledger.Platform.{Address, Seed, text_seed, bytes_seed, Kit, IsPlain, Laws}

two_bytes : Text → Bytes
two_bytes [] = []
two_bytes (c ∷ s) = (c % 256) ∷ (c / 256 % 256) ∷ two_bytes s

code_units : Bytes → Text
code_units [] = []
code_units (a ∷ []) = []
code_units (a ∷ b ∷ bs) = (a + 256 * b) ∷ code_units bs

seed_bytes : Seed → Bytes
unfolding two_bytes
seed_bytes (text_seed s) = two_bytes s
seed_bytes (bytes_seed b) = b

sample_encode : Address → Outcome Bytes
sample_encode a = if length a == 32 then ok a else throws (foreign 1)

sample_decode : Bytes → Outcome Address
sample_decode b = if ltb (length b) 32 then throws (foreign 2) else ok (take 32 b)

unfoldable pub sample : Kit
unfolding two_bytes code_units seed_bytes sample_encode sample_decode
sample = record {
  utf8_encode = two_bytes;
  utf8_decode = code_units;
  address_encode = sample_encode;
  address_decode = sample_decode;
  find_pda = λ program seeds. ok (take 32 (flatten (map seed_bytes seeds) ++ zeros 32), 255);
  btoa = λ s. ok s;
  atob = λ s. ok s;
}

two_bytes-IsBytes : (s : Text) → IsBytes (two_bytes s)
unfolding two_bytes
two_bytes-IsBytes [] = tt
two_bytes-IsBytes (c ∷ s) = (omega arith, (omega arith, two_bytes-IsBytes s))

code_units-two_bytes : (s : Text) → IsPlain s → code_units (two_bytes s) ≡ s
unfolding two_bytes code_units
code_units-two_bytes [] h = refl
code_units-two_bytes (c ∷ s) (p, h) = ground (arith, code_units-two_bytes s h)

take_all : (n : ℕ) (b : Bytes) → length b ≡ n → take n b ≡ b
take_all zero [] h = refl
take_all zero (x ∷ b) h = absurd (omega arith)
take_all (suc n) [] h = absurd (omega arith)
take_all (suc n) (x ∷ b) h = ap (λ t. x ∷ t) (take_all n b (omega arith))

decode_32 : (b : Bytes) → length b ≡ 32 → sample_decode b ≡ ok b
unfolding sample_decode
decode_32 b h = ground (arith, take_all 32 b h)

encode_ok : (a : Address) (b : Bytes) → sample_encode a ≡ ok b → (length b ≡ 32) × (a ≡ b)
unfolding sample_encode
encode_ok a b h = ground arith

pub sample-Laws : Laws sample
unfolding sample
sample-Laws = record {
  utf8_encode-IsBytes = two_bytes-IsBytes;
  utf8_decode-encode = code_units-two_bytes;
  address_encode_length = λ a b h. (encode_ok a b h).0;
  address_decode-encode =
      λ a b h. decode_32 b (encode_ok a b h).0 ∙ ap ok (sym (encode_ok a b h).1);
  address_decode_total = λ b h k. (b, decode_32 b h);
  address_decode_short = λ b h. (foreign 2, ground arith);
  atob-btoa = λ s h. (s, refl, refl);
}
