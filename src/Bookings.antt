-- ===== src/Bookings.antt =====
-- src/drr-bookings: the calendar of the District Rotaract Representative.
pub mod Types
pub mod Reference
pub mod Service
pub mod Calendar
mod Tests
