-- ===== src/Accounts/Sizes.antt =====
-- For which lengths of data the decoders of web/src/solana/accounts.ts return, and for which they
-- throw.
use terra_ledger.Base.{
  refl, zero, suc, ◌∷◌, ℕ, ◌+◌, ◌-◌, ◌<◌, ◌≤◌, ◌≡◌, arith, [], length, length-take, length-drop,
}
use terra_ledger.Base.{take, drop, ok, throws, Thrown, range_error, bind_throws, bind_total}
use terra_ledger.Base.{lt→leb_false, le→leb}
use terra_ledger.Bytes.{Bytes, IsBytes, get_uint, slice, le_value, to_i64, ℤ}
use terra_ledger.Platform.{Address, Kit, Laws}
use terra_ledger.Accounts.{
  read_u64_le, read_i64_le, read_address, EncumbranceAccountData, deserialize_encumbrance,
}

get_uint_short :
    (n : ℕ) (bytes : Bytes) (offset : ℕ)
    → length bytes < offset + n
    → get_uint n bytes offset ≡ throws range_error
unfolding get_uint
get_uint_short n bytes offset h = rw (lt→leb_false (offset + n) (length bytes) h)

get_uint_total :
    (n : ℕ) (bytes : Bytes) (offset : ℕ)
    → offset + n ≤ length bytes
    → (v : ℕ) × (get_uint n bytes offset ≡ ok v)
unfolding get_uint
get_uint_total n bytes offset h =
    (le_value (slice bytes offset (offset + n)), rw (le→leb (offset + n) (length bytes) h))

read_i64_le_short :
    (bytes : Bytes) (offset : ℕ)
    → length bytes < offset + 8
    → read_i64_le bytes offset ≡ throws range_error
unfolding read_i64_le
read_i64_le_short bytes offset h = rw (get_uint_short 8 bytes offset h)

read_i64_le_total :
    (bytes : Bytes) (offset : ℕ)
    → offset + 8 ≤ length bytes
    → (z : ℤ) × (read_i64_le bytes offset ≡ ok z)
unfolding read_i64_le
read_i64_le_total bytes offset h = let (v, e) = get_uint_total 8 bytes offset h in (to_i64 v, rw e)

take-IsBytes : (n : ℕ) (bytes : Bytes) → IsBytes bytes → IsBytes (take n bytes)
take-IsBytes zero bytes h = tt
take-IsBytes (suc n) [] h = tt
take-IsBytes (suc n) (b ∷ bytes) (p, h) = (p, take-IsBytes n bytes h)

drop-IsBytes : (n : ℕ) (bytes : Bytes) → IsBytes bytes → IsBytes (drop n bytes)
drop-IsBytes zero bytes h = h
drop-IsBytes (suc n) [] h = tt
drop-IsBytes (suc n) (b ∷ bytes) (p, h) = drop-IsBytes n bytes h

module _ (kit : Kit) (laws : Laws kit) (bytes : Bytes) where
  read_address_total :
      (offset : ℕ)
      → IsBytes bytes
      → offset + 32 ≤ length bytes
      → (a : Address) × (read_address kit bytes offset ≡ ok a)
  unfolding read_address
  read_address_total offset valid h =
      laws.address_decode_total (slice bytes offset (offset + 32))
        (omega
          (arith, length-take (offset + 32 - offset) (drop offset bytes), length-drop offset bytes))
        (take-IsBytes (offset + 32 - offset) _ (drop-IsBytes offset bytes valid))

-- Data shorter than 192 bytes makes the encumbrance decoder throw.
pub deserialize_encumbrance_short :
    (kit : Kit) (bytes : Bytes)
    → length bytes < 192
    → (e : Thrown) × (deserialize_encumbrance kit bytes ≡ throws e)
unfolding deserialize_encumbrance
deserialize_encumbrance_short kit bytes h = bind_throws (read_address kit bytes 8) _ λ a.
    bind_throws (read_address kit bytes 40) _ λ b. bind_throws (read_u64_le bytes 72) _ λ c.
      bind_throws (read_i64_le bytes 176) _
        λ d. (range_error, rw (read_i64_le_short bytes 184 (omega arith)))

-- At 192 bytes or more it returns an account.
pub deserialize_encumbrance_total :
    (kit : Kit) (laws : Laws kit) (bytes : Bytes)
    → IsBytes bytes
    → 192 ≤ length bytes
    → (a : EncumbranceAccountData) × (deserialize_encumbrance kit bytes ≡ ok a)
unfolding deserialize_encumbrance read_u64_le
deserialize_encumbrance_total kit laws bytes valid h =
    bind_total (read_address kit bytes 8) _
      (read_address_total kit laws bytes 8 valid (omega arith))
      λ a.
        bind_total (read_address kit bytes 40) _
          (read_address_total kit laws bytes 40 valid (omega arith))
          λ b. bind_total (get_uint 8 bytes 72) _ (get_uint_total 8 bytes 72 (omega arith)) λ c.
            bind_total (read_i64_le bytes 176) _ (read_i64_le_total bytes 176 (omega arith)) λ d.
              bind_total (read_i64_le bytes 184) _ (read_i64_le_total bytes 184 (omega arith))
                λ f. (_, refl)
