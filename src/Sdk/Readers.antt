-- ===== src/Sdk/Readers.antt =====
-- The readers of sdk/src/accounts.ts, and its table of statuses.
use terra_ledger.Base.{ℕ, zero, suc, ◌+◌, Bool, true, false, Option, none, some, get_elem?}
use terra_ledger.Base.{Outcome, ok, ◌>>=◌, Text}
use terra_ledger.Bytes.{Bytes, slice, get_uint, ℤ, to_i64}
use terra_ledger.Platform.{Address, Kit}
use terra_ledger.Accounts.{EncumbranceStatus, active, released, disputed}

abbrev pub anchor_discriminator_size : ℕ
anchor_discriminator_size = 8

unfoldable pub read_u8 : Bytes → ℕ → Option ℕ
read_u8 data' offset = get_elem? data' offset

unfoldable pub read_u16_le : Bytes → ℕ → Outcome ℕ
read_u16_le data' offset = get_uint 2 data' offset

unfoldable pub read_u32_le : Bytes → ℕ → Outcome ℕ
read_u32_le data' offset = get_uint 4 data' offset

unfoldable pub read_u64_le : Bytes → ℕ → Outcome ℕ
read_u64_le data' offset = get_uint 8 data' offset

unfoldable pub read_i64_le : Bytes → ℕ → Outcome ℤ
read_i64_le data' offset = do w ← get_uint 8 data' offset; ok (to_i64 w)

-- `data[offset] !== 0`, true of `undefined`
abbrev pub differs_from_zero : Option ℕ → Bool
differs_from_zero none = true
differs_from_zero (some zero) = false
differs_from_zero (some (suc n)) = true

unfoldable pub read_bool : Bytes → ℕ → Bool
read_bool data' offset = differs_from_zero (get_elem? data' offset)

unfoldable pub read_bytes : Bytes → ℕ → ℕ → Bytes
read_bytes data' offset len = slice data' offset (offset + len)

-- `ENCUMBRANCE_STATUS_MAP[code] ?? 'Active'`
unfoldable pub encumbrance_status : Option ℕ → EncumbranceStatus
encumbrance_status none = active
encumbrance_status (some zero) = active
encumbrance_status (some (suc zero)) = released
encumbrance_status (some (suc (suc zero))) = disputed
encumbrance_status (some (suc (suc (suc n)))) = active

module _ (kit : Kit) where
  unfoldable pub read_address : Bytes → ℕ → Outcome Address
  read_address data' offset = kit.address_decode (slice data' offset (offset + 32))

  -- the string, and how many bytes it took
  unfoldable pub read_string : Bytes → ℕ → Outcome (Text × ℕ)
  read_string data' offset = do
    len ← read_u32_le data' offset
    ok (kit.utf8_decode (slice data' (offset + 4) (offset + 4 + len)), 4 + len)
