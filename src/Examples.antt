-- ===== src/Examples.antt =====
-- The theorems at concrete data, for each part of the development.
mod Holds
mod Refunds
mod Others
mod Catalog
mod Payments
mod Tickets
