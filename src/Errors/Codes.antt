-- ===== src/Errors/Codes.antt =====
-- The error codes of the two programs, as `parseTransactionError` reports them: the enumerations of
-- contracts/programs/terra_token/src/errors.rs and contracts/programs/lien_registry/src/errors.rs,
-- whose variants Anchor numbers from 6000.
use terra_ledger.Base.{ℕ, ◌≡◌, ◌≢◌, refl, none, some, Text, text}
use terra_ledger.Errors.{hex_match_at, anchor_match_at, first_match, parse_hex}
use terra_ledger.Errors.Messages.{
  anchor_error_names, message_of, first_named, known_code, code_message, coded_error, named_error,
  parse_raw, unknown_code,
}

-- `TerraTokenError`
pub data TerraError : Type 0 where
  cadastral_too_long parcel_not_verified too_early risk_flag_set invalid_land_class : TerraError
  invalid_area owner_mismatch mint_space unauthorized_authority invalid_ai_score : TerraError
  invalid_grade invalid_ltv : TerraError

-- `LienRegistryError`
pub data LienError : Type 0 where
  active_lien_exists lien_parcel_not_verified unauthorized_release not_active : LienError
  invalid_amount : LienError

abbrev pub terra_code : TerraError → ℕ
terra_code cadastral_too_long = 6000
terra_code parcel_not_verified = 6001
terra_code too_early = 6002
terra_code risk_flag_set = 6003
terra_code invalid_land_class = 6004
terra_code invalid_area = 6005
terra_code owner_mismatch = 6006
terra_code mint_space = 6007
terra_code unauthorized_authority = 6008
terra_code invalid_ai_score = 6009
terra_code invalid_grade = 6010
terra_code invalid_ltv = 6011

abbrev pub terra_name : TerraError → Text
terra_name cadastral_too_long = text "CadastralTooLong"
terra_name parcel_not_verified = text "ParcelNotVerified"
terra_name too_early = text "TooEarlyForSeasonalCheck"
terra_name risk_flag_set = text "RiskFlagSet"
terra_name invalid_land_class = text "InvalidLandClass"
terra_name invalid_area = text "InvalidArea"
terra_name owner_mismatch = text "OwnerMismatch"
terra_name mint_space = text "MintSpaceCalculation"
terra_name unauthorized_authority = text "UnauthorizedAuthority"
terra_name invalid_ai_score = text "InvalidAIScore"
terra_name invalid_grade = text "InvalidCollateralGrade"
terra_name invalid_ltv = text "InvalidLTV"

abbrev pub lien_code : LienError → ℕ
lien_code active_lien_exists = 6000
lien_code lien_parcel_not_verified = 6001
lien_code unauthorized_release = 6002
lien_code not_active = 6003
lien_code invalid_amount = 6004

abbrev pub lien_name : LienError → Text
lien_name active_lien_exists = text "ActiveLienExists"
lien_name lien_parcel_not_verified = text "ParcelNotVerified"
lien_name unauthorized_release = text "UnauthorizedRelease"
lien_name not_active = text "EncumbranceNotActive"
lien_name invalid_amount = text "InvalidAmount"

-- The text has no line of an Anchor error and no name of one, and the first `custom program error`
-- in it gives this code.
pub record OnlyCode (raw : Text) (code : ℕ) : Type 0 where
  pub digits : Text
  pub no_line : first_match anchor_match_at raw ≡ none
  pub no_name : first_named raw anchor_error_names ≡ none
  pub found : first_match hex_match_at raw ≡ some digits
  pub value : parse_hex 0 digits ≡ code

pub parse_raw-OnlyCode :
    (raw msg : Text) (code : ℕ) → OnlyCode raw code → parse_raw raw msg ≡ code_message raw code
unfolding parse_raw named_error coded_error
parse_raw-OnlyCode raw msg code only =
    rw (only.no_line, parse_raw, only.no_name, named_error, only.found, coded_error, only.value)
      refl

code_message-lien :
    (raw : Text) (error : LienError)
    → some (code_message raw (lien_code error)) ≡ message_of (lien_name error) anchor_error_names
unfolding code_message known_code message_of
code_message-lien raw active_lien_exists = refl
code_message-lien raw lien_parcel_not_verified = refl
code_message-lien raw unauthorized_release = refl
code_message-lien raw not_active = refl
code_message-lien raw invalid_amount = refl

code_message-terra :
    (raw : Text) (error : TerraError)
    → error ≢ parcel_not_verified
    → some (code_message raw (terra_code error)) ≢ message_of (terra_name error) anchor_error_names
unfolding code_message known_code message_of unknown_code
code_message-terra raw cadastral_too_long other = λ e. cc
code_message-terra raw parcel_not_verified other = absurd (other refl)
code_message-terra raw too_early other = λ e. cc
code_message-terra raw risk_flag_set other = λ e. cc
code_message-terra raw invalid_land_class other = λ e. cc
code_message-terra raw invalid_area other = λ e. cc
code_message-terra raw owner_mismatch other = λ e. cc
code_message-terra raw mint_space other = λ e. cc
code_message-terra raw unauthorized_authority other = λ e. cc
code_message-terra raw invalid_ai_score other = λ e. cc
code_message-terra raw invalid_grade other = λ e. cc
code_message-terra raw invalid_ltv other = λ e. cc

-- Of the codes of the lien registry, each is reported with the message that the table gives the
-- error's name.
pub lien_codes :
    (raw msg : Text) (error : LienError)
    → OnlyCode raw (lien_code error)
    → some (parse_raw raw msg) ≡ message_of (lien_name error) anchor_error_names
lien_codes raw msg error only = rw (parse_raw-OnlyCode raw msg _ only) (code_message-lien raw error)

-- Of the codes of the token program, none but that of `ParcelNotVerified` is reported with the
-- message that the table gives the error's name: the lien registry's message for the same number
-- is shown, or the bare number.
pub terra_codes :
    (raw msg : Text) (error : TerraError)
    → error ≢ parcel_not_verified
    → OnlyCode raw (terra_code error)
    → some (parse_raw raw msg) ≢ message_of (terra_name error) anchor_error_names
terra_codes raw msg error other only =
    rw (parse_raw-OnlyCode raw msg _ only) (code_message-terra raw error other)
