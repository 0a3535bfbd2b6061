-- ===== src/Pages.antt =====
-- The pages and steps of web/src/pages and the components of web/src/components that keep state, by
-- what their handlers do; what they render is left out.
pub mod CreditScore
pub mod Retries
pub mod LienStep
pub mod LienShown
pub mod LienPledged
pub mod Toasts
pub mod Expiry
pub mod Farmer
pub mod FarmerShown
pub mod Consent
pub mod ConsentShown
pub mod WalletSetup
pub mod Advances
pub mod SearchParcel
pub mod WalletButton
