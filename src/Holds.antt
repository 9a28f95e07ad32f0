-- ===== src/Holds.antt =====
-- Seat holds: src/features/holds and src/server/holds.
pub mod Tables
pub mod Eligibility
pub mod Expiry
pub mod Consistency
pub mod Acquire
pub mod Release
pub mod Sweep
pub mod Closing
pub mod Claiming
pub mod Acquiring
pub mod Guarantees
pub mod Interleaving
pub mod Sweeping
pub mod Releasing
pub mod Selecting
pub mod Replaying
