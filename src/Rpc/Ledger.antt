-- ===== src/Rpc/Ledger.antt =====
-- What a node answers from: the accounts of the chain, each owned by a program. `Serves` is the
-- documented behaviour of `getAccountInfo` and `getProgramAccounts` with one `memcmp` filter.
use terra_ledger.Base.{
  ℕ, ◌+◌, ◌%◌, ◌≡◌, refl, sym, ◌∙◌, ap, arith, List, [], ◌∷◌, ◌++◌, append_assoc, append-nil,
}
use mathlib.Core.Path.{ap₂}
use terra_ledger.Base.{map, length, All, Bool, ◌&&◌, if◌then◌else◌, Option, none, some}
use terra_ledger.Base.{Outcome, ok, ◌>>=◌, map_outcome, Text}
use terra_ledger.Bytes.{Bytes, IsBytes, bytes_eq, slice}
use terra_ledger.Platform.{Address, Kit, Laws}
use terra_ledger.Rpc.{
  Value, null, with_data, result, Entry, in_base58, in_base64, Memcmp, Rpc, Fetched, binary_of,
  bytes_to_base64, base64_to_bytes, keyed_entry, bare_entry,
}

pub record Account : Type 0 where
  pub key : Text
  pub program : Address
  pub bytes : Bytes

pub record Ledger : Type 0 where
  pub accounts : List Account
  pub to_base64 : Bytes → Text

-- Whether a request selects an account: by its owner, and by the bytes at an offset.
abbrev pub selects : Address → ℕ → Bytes → Account → Bool
selects program offset wanted a =
    bytes_eq a.program program && bytes_eq (slice a.bytes offset (offset + length wanted)) wanted

abbrev pub select : (Account → Bool) → List Account → List Account
select p [] = []
select p (a ∷ accounts) = let rest = select p accounts in if p a then a ∷ rest else rest

abbrev pub account_at : Address → List Account → Option Account
account_at addr [] = none
account_at addr (a ∷ accounts) = if bytes_eq a.key addr then some a else account_at addr accounts

abbrev pub entry_of : Ledger → Account → Entry
entry_of ledger a = record { pubkey = a.key; base64 = ledger.to_base64 a.bytes }

abbrev pub value_of : Ledger → Option Account → Value
value_of ledger none = null
value_of ledger (some a) = with_data (ledger.to_base64 a.bytes)

-- The bytes that a filter stands for.
abbrev pub wanted_bytes : Kit → Memcmp → Outcome Bytes
wanted_bytes kit filter = elim filter.encoding [
  | in_base58 ↦ kit.address_encode filter.bytes
  | in_base64 ↦ kit.atob filter.bytes
]

pub record Serves (kit : Kit) (rpc : Rpc) (ledger : Ledger) : Type 0 where
  pub accounts-IsBytes : All (λ a. IsBytes a.bytes) ledger.accounts
  pub to_base64_lem : (b : Bytes) → IsBytes b → kit.atob (ledger.to_base64 b) ≡ ok b
  pub info :
      (addr : Address)
      → rpc.get_account_info addr ≡ ok (result (value_of ledger (account_at addr ledger.accounts)))
  pub programs :
      (program : Address) (filter : Memcmp) (wanted : Bytes)
      → wanted_bytes kit filter ≡ ok wanted
      → rpc.get_program_accounts program filter
        ≡ ok (
            some (
              map
                (entry_of ledger)
                (select (selects program filter.offset wanted) ledger.accounts)))

pub All-select :
    (P : Account → Type 0) (p : Account → Bool) (accounts : List Account)
    → All P accounts
    → All P (select p accounts)
All-select P p [] h = tt
All-select P p (a ∷ accounts) (q, h) = ground (arith, All-select P p accounts h)

binary_of-append : (binary : Text) (bytes : Bytes) → binary_of binary bytes ≡ binary ++ bytes
unfolding binary_of
binary_of-append binary [] = sym (append-nil binary)
binary_of-append binary (b ∷ bytes) =
    binary_of-append (binary ++ (b ∷ [])) bytes ∙ append_assoc binary (b ∷ []) bytes

map-mod : (bytes : Bytes) → IsBytes bytes → map (λ c. c % 256) bytes ≡ bytes
map-mod [] h = refl
map-mod (b ∷ bytes) (p, h) = ap₂ (λ x xs. x ∷ xs) (omega arith) (map-mod bytes h)

-- What the program sends as a base64 filter is read by the node as the same bytes.
pub bytes_to_base64_lem :
    (kit : Kit) (laws : Laws kit) (bytes : Bytes)
    → IsBytes bytes
    → (t : Text) × (bytes_to_base64 kit bytes ≡ ok t) × (kit.atob t ≡ ok bytes)
unfolding bytes_to_base64
bytes_to_base64_lem kit laws bytes h =
    let (t, encoded, decoded) = laws.atob-btoa bytes h in
    (t, ap kit.btoa (binary_of-append [] bytes) ∙ encoded, decoded)

-- An account of the ledger, decoded, with its address.
abbrev pub keyed : {A : Type 0} → (Bytes → Outcome A) → Account → Outcome (Fetched A)
keyed decode a = do decoded ← decode a.bytes; ok (record { pda = a.key; account = decoded })

module _ (kit : Kit) (rpc : Rpc) (ledger : Ledger) (serves : Serves kit rpc ledger) where
  pub base64_to_bytes-entry :
      (bytes : Bytes) → IsBytes bytes → base64_to_bytes kit (ledger.to_base64 bytes) ≡ ok bytes
  unfolding base64_to_bytes
  base64_to_bytes-entry bytes h = rw (serves.to_base64_lem bytes h) (ap ok (map-mod bytes h))

  pub map_outcome-keyed :
      {A : Type 0} (decode : Bytes → Outcome A) (accounts : List Account)
      → All (λ a. IsBytes a.bytes) accounts
      → map_outcome (keyed_entry kit decode) (map (entry_of ledger) accounts)
        ≡ map_outcome (keyed decode) accounts
  unfolding map_outcome keyed_entry
  map_outcome-keyed decode [] h = refl
  map_outcome-keyed decode (a ∷ accounts) (p, h) =
      simp (base64_to_bytes-entry a.bytes p, map_outcome-keyed decode accounts h)

  pub map_outcome-bare :
      {A : Type 0} (decode : Bytes → Outcome A) (accounts : List Account)
      → All (λ a. IsBytes a.bytes) accounts
      → map_outcome (bare_entry kit decode) (map (entry_of ledger) accounts)
        ≡ map_outcome (λ a. decode a.bytes) accounts
  unfolding map_outcome bare_entry
  map_outcome-bare decode [] h = refl
  map_outcome-bare decode (a ∷ accounts) (p, h) =
      simp (base64_to_bytes-entry a.bytes p, map_outcome-bare decode accounts h)
