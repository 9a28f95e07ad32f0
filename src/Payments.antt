-- ===== src/Payments.antt =====
-- Payments: src/features/payments.
pub mod SecretRotation
pub mod Snapshots
pub mod Fulfillment
pub mod Processing
pub mod Converting
pub mod Soundness
pub mod Keeping
pub mod Booking
pub mod Selling
pub mod Outcomes
pub mod Routing
pub mod Ordering
pub mod Interleaving
pub mod Capturing
pub mod Paying
pub mod Delivery
pub mod Finishing
pub mod Redelivery
pub mod ExactlyOnce
pub mod Payable
pub mod SeatLifecycle
pub mod SeatRefinement
