-- ===== src/Reports.antt =====
-- src/reports: the monthly reports of the clubs.
pub mod Service
pub mod Status
pub mod Filing
pub mod Tests
