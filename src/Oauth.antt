-- ===== src/Oauth.antt =====
-- packages/core/src/plugins/oauth: the OAuth plugin, and its thin clients provider-client.ts and
-- state-store.ts, which pass each call on.
pub mod Config
pub mod Start
pub mod Finish
pub mod Plugin
pub mod StateOnce
pub mod Linking
pub mod Effects
pub mod SignIn
pub mod Race
