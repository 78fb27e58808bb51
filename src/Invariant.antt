-- ===== src/Invariant.antt =====
-- Properties of the world that every request keeps: the rules by which the components of
-- packages/core keep one, and the ones that the program keeps.
pub mod Stable
pub mod Accounts
pub mod Verification
pub mod Oauth
pub mod Gates
pub mod Requests
pub mod Release
pub mod Tables
pub mod Transactions
pub mod Kept
pub mod Rows
pub mod Evolution
pub mod Changes
pub mod Growth
pub mod Permanence
pub mod Keys
pub mod WellFormed
pub mod Requirements
pub mod Sequences
pub mod SessionViews
pub mod Refinement
