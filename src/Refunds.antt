-- ===== src/Refunds.antt =====
-- Refunds: src/features/refunds and src/server/refunds.
pub mod Calculation
pub mod Pricing
pub mod Lifecycle
pub mod Allowing
pub mod Ordering
pub mod Authorization
pub mod Payment
pub mod Settlement
pub mod Rows
pub mod Settling
pub mod Redelivery
pub mod Request
pub mod Requesting
pub mod Reviewing
pub mod Webhook
pub mod Reconciliation
