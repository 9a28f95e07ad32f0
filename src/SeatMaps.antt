-- ===== src/SeatMaps.antt =====
-- Seat maps: src/features/seat-maps.
pub mod RowLabels
pub mod Generation
