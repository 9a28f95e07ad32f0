-- ===== src/Ledger.antt =====
-- The financial ledger: src/features/ledger and src/server/payments/ledger-service.ts.
pub mod Entries
pub mod Journal
