-- ===== src/EmailPassword.antt =====
-- packages/core/src/plugins/email-password: the plugin's actions and its mail delivery.
pub mod Input
pub mod Accounts
pub mod SignUp
pub mod Reset
pub mod ResetEffects
pub mod ResetOnce
pub mod Lookups
pub mod SignInEffects
pub mod VerifyEffects
pub mod Verification
pub mod Plugin
