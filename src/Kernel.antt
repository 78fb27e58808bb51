-- ===== src/Kernel.antt =====
-- packages/core/src/kernel: the owner of an action, the policies, and the handler of a request.
pub mod Ownership
pub mod PolicyRun
pub mod Registration
pub mod Handle
pub mod Reading
pub mod CrossSite
pub mod CurrentSession
pub mod SignedUp
pub mod Revocation
