-- ===== src/Platform.antt =====
-- What web/src/solana and sdk/src take from code that is not in the repository: the text codecs of
-- the browser and the address functions of @solana/kit. Each is a function of the model's `Kit`.
pub mod Sample
use terra_ledger.Base.{ℕ, ◌<◌, ◌≡◌, List, [], ◌∷◌, length, Outcome, ok, throws, Thrown, Text, All}
use terra_ledger.Base.{◌≢◌}
use terra_ledger.Bytes.{Bytes, IsBytes}

-- An address is its base58 text, as in @solana/kit.
abbrev pub Address : Type 0
Address = Text

-- A seed of `getProgramDerivedAddress` is a string or a byte array.
pub data Seed : Type 0 where
  text_seed : Text → Seed
  bytes_seed : Bytes → Seed

pub record Kit : Type 0 where
  -- `new TextEncoder().encode` and `new TextDecoder().decode`
  pub utf8_encode : Text → Bytes
  pub utf8_decode : Bytes → Text
  -- `getAddressEncoder().encode` and `getAddressDecoder().decode`
  pub address_encode : Address → Outcome Bytes
  pub address_decode : Bytes → Outcome Address
  -- `getProgramDerivedAddress({ programAddress, seeds })`
  pub find_pda : Address → List Seed → Outcome (Address × ℕ)
  -- `btoa` and `atob`
  pub btoa : Text → Outcome Text
  pub atob : Text → Outcome Text

-- A string that `TextDecoder` gives back: no surrogates, and no byte order mark to drop.
abbrev pub IsPlain : Text → Type 0
IsPlain = All (λ c. (c < 0xd800) × (c ≢ 0xfeff))

-- The documented behaviour that the theorems rely on.
pub record Laws (kit : Kit) : Type 0 where
  pub utf8_encode-IsBytes : (s : Text) → IsBytes (kit.utf8_encode s)
  pub utf8_decode-encode : (s : Text) → IsPlain s → kit.utf8_decode (kit.utf8_encode s) ≡ s
  -- An address has 32 bytes, and they determine its text.
  pub address_encode_length :
      (a : Address) (b : Bytes) → kit.address_encode a ≡ ok b → length b ≡ 32
  pub address_decode-encode :
      (a : Address) (b : Bytes) → kit.address_encode a ≡ ok b → kit.address_decode b ≡ ok a
  pub address_decode_total :
      (b : Bytes) → length b ≡ 32 → IsBytes b → (a : Address) × (kit.address_decode b ≡ ok a)
  -- The decoder refuses fewer bytes than its fixed size.
  pub address_decode_short :
      (b : Bytes) → length b < 32 → (e : Thrown) × (kit.address_decode b ≡ throws e)
  -- `atob` undoes `btoa`, which takes the code units below 256.
  pub atob-btoa : (s : Text) → IsBytes s → (t : Text) × (kit.btoa s ≡ ok t) × (kit.atob t ≡ ok s)
