-- ===== src/Program/Wire.antt =====
-- How the on-chain programs read an instruction: Borsh values one after the other, after eight
-- bytes that choose the handler. The orders and types of the arguments are those of the handlers in
-- contracts/programs/terra_token/src/lib.rs and contracts/programs/lien_registry/src/lib.rs; a
-- string stays bytes. The discriminators are the ones that program.ts took from the IDL.
use Prim.Native.Nat.{ℕ}
use terra_ledger.Base.{length, take, drop, leb, if◌then◌else◌}
use terra_ledger.Base.{Option, none, some}
use terra_ledger.Bytes.{Bytes, bytes_eq, le_value}
use terra_ledger.Program.{
  register_parcel_discriminator, verify_parcel_discriminator, mint_certificate_discriminator,
  seasonal_check_discriminator, update_risk_assessment_discriminator,
  register_encumbrance_discriminator, release_encumbrance_discriminator,
}

infixl 5 ◌>>=◌
abbrev pub ◌>>=◌ {ℓ κ} : {A : Type ℓ} {B : Type κ} → Option A → (A → Option B) → Option B
none >>= k = none
some a >>= k = k a

-- Each reader gives what it read and the bytes behind it.
unfoldable pub take_bytes : ℕ → Bytes → Option (Bytes × Bytes)
take_bytes n bytes = if leb n (length bytes) then some (take n bytes, drop n bytes) else none

unfoldable pub take_uint : ℕ → Bytes → Option (ℕ × Bytes)
take_uint n bytes = do (piece, rest) ← take_bytes n bytes; some (le_value piece, rest)

unfoldable pub take_string : Bytes → Option (Bytes × Bytes)
take_string bytes = do (n, rest) ← take_uint 4 bytes; take_bytes n rest

-- The calls of terra_token, with the arguments of each handler.
pub data TerraCall : Type 0 where
  register_parcel : (cadastral_number : Bytes) (area_ha land_class : ℕ) (egiss : Bytes) → TerraCall
  verify_parcel : (cadastral_number : Bytes) → TerraCall
  mint_certificate :
      (cadastral_number season : Bytes) (ndvi_score : ℕ) (crop_type : Bytes) → TerraCall
  seasonal_check : (cadastral_number : Bytes) → TerraCall
  update_risk_assessment :
      (cadastral_number : Bytes) (ai_score collateral_grade recommended_ltv : ℕ) → TerraCall

pub data LienCall : Type 0 where
  register_encumbrance :
      (cadastral_number : Bytes) (amount : ℕ) (notary_sig_hash notary_cert_hash : Bytes) → LienCall
  release_encumbrance : LienCall

-- Bytes behind the last argument are not read.
unfoldable pub read_register_parcel : Bytes → Option TerraCall
read_register_parcel args = do
  (cadastral, r1) ← take_string args
  (area, r2) ← take_uint 4 r1
  (class, r3) ← take_uint 1 r2
  (egiss, _) ← take_bytes 32 r3
  some (register_parcel cadastral area class egiss)

unfoldable pub read_mint_certificate : Bytes → Option TerraCall
read_mint_certificate args = do
  (cadastral, r1) ← take_string args
  (season, r2) ← take_string r1
  (score, r3) ← take_uint 2 r2
  (crop, _) ← take_string r3
  some (mint_certificate cadastral season score crop)

unfoldable pub read_update_risk_assessment : Bytes → Option TerraCall
read_update_risk_assessment args = do
  (cadastral, r1) ← take_string args
  (score, r2) ← take_uint 1 r1
  (grade, r3) ← take_uint 1 r2
  (ltv, _) ← take_uint 2 r3
  some (update_risk_assessment cadastral score grade ltv)

unfoldable pub read_verify_parcel : Bytes → Option TerraCall
read_verify_parcel args = do (cadastral, _) ← take_string args; some (verify_parcel cadastral)

unfoldable pub read_seasonal_check : Bytes → Option TerraCall
read_seasonal_check args = do (cadastral, _) ← take_string args; some (seasonal_check cadastral)

unfoldable pub read_terra_call : Bytes → Option TerraCall
read_terra_call bytes = do
  (tag, args) ← take_bytes 8 bytes
  if bytes_eq tag register_parcel_discriminator
      then read_register_parcel args
      else if bytes_eq tag verify_parcel_discriminator
      then read_verify_parcel args
      else if bytes_eq tag mint_certificate_discriminator
      then read_mint_certificate args
      else if bytes_eq tag seasonal_check_discriminator
      then read_seasonal_check args
      else if bytes_eq tag update_risk_assessment_discriminator
      then read_update_risk_assessment args
      else none

unfoldable pub read_register_encumbrance : Bytes → Option LienCall
read_register_encumbrance args = do
  (cadastral, r1) ← take_string args
  (amount, r2) ← take_uint 8 r1
  (sig, r3) ← take_bytes 32 r2
  (cert, _) ← take_bytes 32 r3
  some (register_encumbrance cadastral amount sig cert)

unfoldable pub read_lien_call : Bytes → Option LienCall
read_lien_call bytes = do
  (tag, args) ← take_bytes 8 bytes
  if bytes_eq tag register_encumbrance_discriminator
      then read_register_encumbrance args
      else if bytes_eq tag release_encumbrance_discriminator
      then some release_encumbrance
      else none
