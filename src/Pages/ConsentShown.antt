-- ===== src/Pages/ConsentShown.antt =====
-- What ConsentDashboard.tsx shows after a consent is granted or revoked.
use terra_ledger.Base.{
  true, false, not, ◌≡◌, ◌≢◌, ◌⊎◌, inl, inr, refl, ok, throws, Thrown, Option, none, some, List, [],
  ◌∷◌, Text, text, Outcome-cases,
}
use terra_ledger.Api.{Client, get, post}
use terra_ledger.Pages.Consent.{
  Consent, Dashboard, consent_badge_label, consent_status, grant_disabled, revoke_disabled,
  is_granted, or_null, consent_path, fetch_consent_data, settle_action, handle_grant, handle_revoke,
}

module _ {E A : Type 0} (encode : Text → Text) (consents : Client Consent)
    (logs : Client (Option (List E))) (client : Client A) (body : Text) (page : Dashboard E) where
  -- The page for a consent that the API serves, and the page where its request fails.
  abbrev pub Shows : Text → Dashboard E → Type 0
  Shows wallet after =
      (after.action_loading ≡ false)
      × (((c : Consent) × (get consents (consent_path encode wallet) ≡ ok c)
            × (after.consent ≡ some c)
            × (revoke_disabled after ≡ not (is_granted (some c)))
            × (grant_disabled after ≡ is_granted (some c)))
          ⊎ ((x : Thrown) × (get consents (consent_path encode wallet) ≡ throws x)
              × (consent_badge_label (consent_status after.consent) ≡ text "Pending")
              × (revoke_disabled after ≡ true)))

  settle_action-Shows :
      (answer : A) (wallet : Text)
      → wallet ≢ []
      → Shows wallet (settle_action encode consents logs (ok answer) wallet page).0
  unfolding settle_action fetch_consent_data or_null revoke_disabled grant_disabled consent_status
      consent_badge_label
  settle_action-Shows answer [] there = absurd (there refl)
  settle_action-Shows answer (c ∷ wallet) there =
      elim (Outcome-cases (get consents (consent_path encode (c ∷ wallet)))) [
        | inl (consent, e) ↦ rw e (refl, inl (consent, refl, refl, refl, refl))
        | inr (x, e) ↦ rw e (refl, inr (x, refl, refl, refl))
      ]

  -- A POST that fails, or one that succeeds, behind which the page shows what the API then serves.
  abbrev pub Acts : Text → Text → Dashboard E × Option Thrown → Type 0
  Acts path wallet (after, thrown) =
      ((x : Thrown) × (post client path (some body) ≡ throws x)
        × (thrown ≡ some x)
        × (after.consent ≡ page.consent)
        × (after.action_loading ≡ false))
      ⊎ ((answer : A) × (post client path (some body) ≡ ok answer)
          × (thrown ≡ none)
          × Shows wallet after)

  settle_action-Acts :
      (path wallet : Text)
      → wallet ≢ []
      → Acts path wallet
          (settle_action encode consents logs (post client path (some body)) wallet page)
  unfolding settle_action
  settle_action-Acts path wallet there = elim (Outcome-cases (post client path (some body))) [
    | inl (answer, e) ↦ rw e (inr (answer, refl, refl, settle_action-Shows answer wallet there))
    | inr (x, e) ↦ rw e (inl (x, refl, refl, refl, refl))
  ]

  -- For a wallet that is not the empty text, `handleGrant` and `handleRevoke` throw what their POST
  -- throws and leave the consent as it was. Where the POST succeeds the page shows the consent that
  -- the API then serves, which can be revoked just where it is granted; where that request fails,
  -- a consent that is granted is shown as pending and cannot be revoked.
  pub handle_grant-handle_revoke :
      (wallet : Text)
      → wallet ≢ []
      → Acts
          (text "/api/v1/consent/grant")
          wallet
          (handle_grant encode consents logs client body wallet page)
        × Acts
            (text "/api/v1/consent/revoke")
            wallet
            (handle_revoke encode consents logs client body wallet page)
  unfolding handle_grant handle_revoke
  handle_grant-handle_revoke [] there = absurd (there refl)
  handle_grant-handle_revoke (c ∷ wallet) there =
      (settle_action-Acts _ (c ∷ wallet) there, settle_action-Acts _ (c ∷ wallet) there)
