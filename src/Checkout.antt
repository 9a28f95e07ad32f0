-- ===== src/Checkout.antt =====
-- Checkout: src/features/checkout.
pub mod Lifecycle
pub mod Totals
pub mod Tables
pub mod Creation
pub mod Intent
pub mod Expiring
