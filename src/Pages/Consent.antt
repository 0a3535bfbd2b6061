-- ===== src/Pages/Consent.antt =====
-- web/src/pages/ConsentDashboard/ConsentDashboard.tsx: its requests and what it shows of their
-- answers. `E` is an entry of the access log as parsed; a wallet that is not connected is the empty
-- text.
use terra_ledger.Base.{
  Bool, true, false, not, ◌||◌, if◌then◌else◌, Outcome, ok, throws, Thrown, Option, none, some,
  List, [], ◌∷◌, ◌++◌, Text, text,
}
use terra_ledger.Bytes.{bytes_eq}
use terra_ledger.Api.{Client, get, post}

pub record Consent : Type 0 where
  pub wallet_address : Text
  pub status : Text
  pub granted_at : Option Text
  pub revoked_at : Option Text

pub data BadgeVariant : Type 0 where
  active released warning : BadgeVariant

pub record Dashboard (E : Type 0) : Type 0 where
  pub consent : Option Consent
  pub access_log : List E
  pub loading : Bool
  pub action_loading : Bool

unfoldable pub consent_badge_variant : Text → BadgeVariant
consent_badge_variant status =
    if bytes_eq status (text "granted")
    then active
    else (if bytes_eq status (text "revoked") then released else warning)

unfoldable pub consent_badge_label : Text → Text
consent_badge_label status =
    if bytes_eq status (text "granted")
    then text "Granted"
    else (if bytes_eq status (text "revoked") then text "Revoked" else text "Pending")

-- `consent?.status ?? 'pending'`
unfoldable pub consent_status : Option Consent → Text
consent_status none = text "pending"
consent_status (some consent) = consent.status

abbrev pub is_granted : Option Consent → Bool
is_granted consent = bytes_eq (consent_status consent) (text "granted")

-- the properties `disabled` of the two buttons
unfoldable pub grant_disabled : {E : Type 0} → Dashboard E → Bool
grant_disabled page = page.action_loading || is_granted page.consent

unfoldable pub revoke_disabled : {E : Type 0} → Dashboard E → Bool
revoke_disabled page = page.action_loading || not (is_granted page.consent)

-- `.catch(() => null)`
unfoldable pub or_null : {A : Type 0} → Outcome A → Option A
or_null (ok a) = some a
or_null (throws x) = none

-- `.catch(() => [])`, and `logData ?? []`
unfoldable pub or_empty : {A : Type 0} → Outcome (Option (List A)) → List A
or_empty (ok (some entries)) = entries
or_empty (ok none) = []
or_empty (throws x) = []

unfoldable pub consent_path : (Text → Text) → Text → Text
consent_path encode wallet = text "/api/v1/consent/" ++ encode wallet

module _ {E : Type 0} (encode : Text → Text) (consents : Client Consent)
    (logs : Client (Option (List E))) where
  unfoldable pub fetch_consent_data : Text → Dashboard E → Dashboard E
  fetch_consent_data [] page = page
  fetch_consent_data (c ∷ wallet) page = record page {
    consent = or_null (get consents (consent_path encode (c ∷ wallet)));
    access_log = or_empty (get logs (consent_path encode (c ∷ wallet) ++ text "/log"));
    loading = false;
  }

  -- `handleGrant` and `handleRevoke` with what their POST comes to, and what they throw. `consents`
  -- and `logs` answer what comes after it.
  unfoldable pub settle_action :
      {A : Type 0} → Outcome A → Text → Dashboard E → Dashboard E × Option Thrown
  settle_action (throws x) wallet page = (record page { action_loading = false }, some x)
  settle_action (ok answer) wallet page =
      let page' = record page { action_loading = true } in
      (record (fetch_consent_data wallet page') { action_loading = false }, none)

  -- with the body as `JSON.stringify` gives it
  unfoldable pub handle_grant :
      {A : Type 0} → Client A → Text → Text → Dashboard E → Dashboard E × Option Thrown
  handle_grant client body [] page = (page, none)
  handle_grant client body (c ∷ wallet) page =
      settle_action (post client (text "/api/v1/consent/grant") (some body)) (c ∷ wallet) page

  unfoldable pub handle_revoke :
      {A : Type 0} → Client A → Text → Text → Dashboard E → Dashboard E × Option Thrown
  handle_revoke client body [] page = (page, none)
  handle_revoke client body (c ∷ wallet) page =
      settle_action (post client (text "/api/v1/consent/revoke") (some body)) (c ∷ wallet) page
