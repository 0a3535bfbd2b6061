-- ===== src/Chain.antt =====
-- The accounts of terra_token and lien_registry as the on-chain handlers of contracts/programs see
-- and change them. An account is found by what its address is derived from: a parcel by its address,
-- an encumbrance by the addresses of parcel and lender, a lien index by that of the parcel.
pub mod Terra
pub mod Lien
pub mod Results
pub mod Accepts
pub mod Valid
pub mod Parcels
pub mod Pledges
pub mod Reach
pub mod Exclusive
pub mod Execute
pub mod Client
pub mod ReadBack
pub mod Transfer
pub mod Risk
use terra_ledger.Base.{
  ℕ, ◌≡◌, refl, ap, arith, [], ◌∷◌, Bool, true, false, ◌&&◌, Option, none, some,
}
use terra_ledger.Base.{◌==◌, if◌then◌else◌}
use terra_ledger.Bytes.{Bytes, bytes_eq, ℤ}
use terra_ledger.Accounts.Layout.{ParcelConfig, EncumbranceAccount, LienIndex}
use terra_ledger.Errors.Codes.{TerraError, LienError}

pub record Store : Type 0 where
  pub parcels : Bytes → Option ParcelConfig
  pub liens : Bytes → Bytes → Option EncumbranceAccount
  pub indices : Bytes → Option LienIndex

abbrev pub empty_store : Store
empty_store = record { parcels = λ key. none; liens = λ key who. none; indices = λ key. none }

-- `TransferHookError`
pub data HookError : Type 0 where
  fraud_flagged certificate_expired : HookError

-- Why a transaction fails: a constraint of `#[derive(Accounts)]` or an account that is not there, an
-- error of a handler, or an overflow.
pub data Failure : Type 0 where
  account_error panicked : Failure
  terra_error : TerraError → Failure
  lien_error : LienError → Failure
  hook_error : HookError → Failure

-- A transaction that fails leaves the accounts as they were.
pub data Attempt (A : Type 0) : Type 0 where
  returns : A → Attempt A
  fails : Failure → Attempt A

infixl 5 ◌>>=◌
abbrev pub ◌>>=◌ : {A B : Type 0} → Attempt A → (A → Attempt B) → Attempt B
returns a >>= k = k a
fails e >>= k = fails e

-- `require!(test, e)`
abbrev pub must : Bool → Failure → Attempt Unit
must true e = returns tt
must false e = fails e

abbrev pub account : {A : Type 0} → Option A → Attempt A
account none = fails account_error
account (some a) = returns a

-- `init`: there is no account yet
abbrev pub absent : {A : Type 0} → Option A → Attempt Unit
absent none = returns tt
absent (some a) = fails account_error

-- A map with one more key.
abbrev pub put_at : {A : Type 0} → (Bytes → A) → Bytes → A → Bytes → A
put_at f key a k = if bytes_eq k key then a else f k

abbrev pub put_parcel : Store → Bytes → ParcelConfig → Store
put_parcel s key p = record s { parcels = put_at s.parcels key (some p) }

abbrev pub put_lien : Store → Bytes → Bytes → Option EncumbranceAccount → Store
put_lien s key who lien = record s { liens = put_at s.liens key (put_at (s.liens key) who lien) }

abbrev pub put_index : Store → Bytes → LienIndex → Store
put_index s key index = record s { indices = put_at s.indices key (some index) }

-- `Clock::get()`
pub record Clock : Type 0 where
  pub unix_timestamp : ℤ
  pub slot : ℕ
