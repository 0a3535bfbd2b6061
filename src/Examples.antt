-- ===== src/Examples.antt =====
-- Runs on concrete inputs, and the theorems at inputs that meet their hypotheses.
pub mod Samples
pub mod Program
pub mod Accounts
pub mod Rpc
pub mod Chain
pub mod Seed
pub mod Sdk
pub mod Errors
pub mod SignAndSend
pub mod Deeplink
pub mod Hooks
pub mod Wizard
pub mod LienPage
pub mod Clients
pub mod LienStep
pub mod Portal
pub mod Pages
