-- ===== src/Delivery.antt =====
-- packages/delivery-provider: the mapping of failures, the retries, and the providers over both
-- transports.
pub mod Failures
pub mod Policy
pub mod Transports
pub mod Attempts
pub mod Decisions
pub mod Rejections
