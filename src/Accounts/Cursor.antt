-- ===== src/Accounts/Cursor.antt =====
-- Reading stored fields one after the other: what stands at an offset, and what each reader of
-- web/src/solana/accounts.ts gives there.
use terra_ledger.Base.{ℕ, ◌+◌, ◌<◌, ◌^◌, ◌≡◌, refl, ap, ◌∙◌, arith, List, ◌∷◌, ◌++◌}
use mathlib.Core.Path.{subst}
use terra_ledger.Base.{
  append_assoc, length, flatten, drop, drop-append, get_elem?-drop, some, ok, Bool, true, false,
}
use terra_ledger.Bytes.{Bytes, slice, get_uint, le_bytes, ℤ, of_i64, IsI64}
use terra_ledger.Bytes.Words.{length-le_bytes, to_i64-of_i64, of_i64-lt}
use terra_ledger.Bytes.Writes.{At-next, slice-At, get_uint-At}
use terra_ledger.Platform.{Address, Kit}
use terra_ledger.Accounts.{
  read_u8, read_u16_le, read_u32_le, read_u64_le, read_i64_le, read_bool, read_bytes, read_address,
  read_string,
}
use terra_ledger.Accounts.Layout.{stored, byte, bool_byte}

-- From `offset` on, the array holds the fields `fields`, and then `space`.
pub record Rest (data' : Bytes) (offset : ℕ) (fields : List Bytes) (space : Bytes) : Type 0 where
  pub here : drop offset data' ≡ flatten fields ++ space

pub Rest-stored :
    (discriminator : Bytes) (fields : List Bytes) (space : Bytes)
    → length discriminator ≡ 8
    → Rest (stored discriminator fields space) 8 fields space
Rest-stored discriminator fields space h = record {
  here = rw (← h) (drop-append discriminator (flatten fields ++ space));
}

module _ {data' : Bytes} {offset : ℕ} {field : Bytes} {fields : List Bytes} {space : Bytes} where
  split :
      Rest data' offset (field ∷ fields) space
      → drop offset data' ≡ field ++ (flatten fields ++ space)
  split r = r.here ∙ append_assoc field (flatten fields) space

  pub Rest-next :
      (n : ℕ)
      → length field ≡ n
      → Rest data' offset (field ∷ fields) space
      → Rest data' (offset + n) fields space
  Rest-next n size r = record {
    here = rw (← size) (At-next data' offset field (flatten fields ++ space) (split r));
  }

  pub slice-Rest :
      (n : ℕ)
      → length field ≡ n
      → Rest data' offset (field ∷ fields) space
      → slice data' offset (offset + n) ≡ field
  slice-Rest n size r = slice-At data' offset n field (flatten fields ++ space) size (split r)

pub Rest-string :
    {data' : Bytes} {offset : ℕ} {field : Bytes} {fields : List Bytes} {space : Bytes}
    → Rest data' offset (le_bytes 4 (length field) ∷ field ∷ fields) space
    → Rest data' (offset + (4 + length field)) fields space
Rest-string {data'} {offset} {field} {fields} {space} r =
    let next = Rest-next (length field) refl (Rest-next 4 (length-le_bytes 4 (length field)) r) in
    let e : offset + 4 + length field ≡ offset + (4 + length field) = omega arith in
    subst (λ k. Rest data' k fields space) e next

module _ {data' : Bytes} {offset v : ℕ} {fields : List Bytes} {space : Bytes} where
  get_uint-Rest :
      (n : ℕ)
      → 0 < n
      → v < 256 ^ n
      → Rest data' offset (le_bytes n v ∷ fields) space
      → get_uint n data' offset ≡ ok v
  get_uint-Rest n h fits r = get_uint-At n data' offset v (flatten fields ++ space) h fits (split r)

  pub read_u8-Rest : Rest data' offset (byte v ∷ fields) space → read_u8 data' offset ≡ some v
  unfolding read_u8
  read_u8-Rest r = get_elem?-drop offset data' ∙ rw r.here

pub read_i64_le-Rest :
    {data' : Bytes} {offset : ℕ} {z : ℤ} {fields : List Bytes} {space : Bytes}
    → IsI64 z
    → Rest data' offset (le_bytes 8 (of_i64 z) ∷ fields) space
    → read_i64_le data' offset ≡ ok z
unfolding read_i64_le
read_i64_le-Rest {z} h r =
    rw (get_uint-Rest 8 (omega arith) (omega (arith, of_i64-lt z h)) r) (ap ok (to_i64-of_i64 z h))

module _ (kit : Kit) {data' : Bytes} {offset : ℕ} {field : Bytes} {fields : List Bytes}
    {space : Bytes} where
  pub read_address-Rest :
      {a : Address}
      → length field ≡ 32
      → kit.address_decode field ≡ ok a
      → Rest data' offset (field ∷ fields) space
      → read_address kit data' offset ≡ ok a
  unfolding read_address
  read_address-Rest size known r = ap kit.address_decode (slice-Rest 32 size r) ∙ known

  -- A string is two fields, its length and its bytes.
  pub read_string-Rest :
      length field < 2 ^ 32
      → Rest data' offset (le_bytes 4 (length field) ∷ field ∷ fields) space
      → read_string kit data' offset ≡ ok (kit.utf8_decode field, 4 + length field)
  unfolding read_string read_u32_le
  read_string-Rest size r =
      let text_at = Rest-next 4 (length-le_bytes 4 (length field)) r in
      rw (get_uint-Rest 4 (omega arith) (omega arith) r, slice-Rest (length field) refl text_at)

module _ {data' : Bytes} {offset : ℕ} {fields : List Bytes} {space : Bytes} where
  pub read_bytes-Rest :
      {field : Bytes}
      → length field ≡ 32
      → Rest data' offset (field ∷ fields) space
      → read_bytes data' offset 32 ≡ field
  unfolding read_bytes
  read_bytes-Rest size r = slice-Rest 32 size r

  pub read_bool-Rest :
      (b : Bool)
      → Rest data' offset (byte (bool_byte b) ∷ fields) space
      → read_bool data' offset ≡ b
  unfolding read_bool read_u8
  read_bool-Rest true r = rw (read_u8-Rest r)
  read_bool-Rest false r = rw (read_u8-Rest r)

  pub read_u16_le-Rest :
      {v : ℕ}
      → v < 2 ^ 16
      → Rest data' offset (le_bytes 2 v ∷ fields) space
      → read_u16_le data' offset ≡ ok v
  unfolding read_u16_le
  read_u16_le-Rest h r = get_uint-Rest 2 (omega arith) (omega arith) r

  pub read_u32_le-Rest :
      {v : ℕ}
      → v < 2 ^ 32
      → Rest data' offset (le_bytes 4 v ∷ fields) space
      → read_u32_le data' offset ≡ ok v
  unfolding read_u32_le
  read_u32_le-Rest h r = get_uint-Rest 4 (omega arith) (omega arith) r

  pub read_u64_le-Rest :
      {v : ℕ}
      → v < 2 ^ 64
      → Rest data' offset (le_bytes 8 v ∷ fields) space
      → read_u64_le data' offset ≡ ok v
  unfolding read_u64_le
  read_u64_le-Rest h r = get_uint-Rest 8 (omega arith) (omega arith) r
