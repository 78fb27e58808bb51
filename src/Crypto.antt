-- ===== src/Crypto.antt =====
-- packages/crypto-default/src/default-crypto.ts.
pub mod Comparison
pub mod Ascii
pub mod Provider
