-- ===== src/Contracts.antt =====
-- The types of packages/contracts/src.
pub mod Actions
pub mod Errors
pub mod Sessions
pub mod Results
pub mod Storage
pub mod Services
