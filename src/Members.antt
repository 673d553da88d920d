-- ===== src/Members.antt =====
-- src/members and src/reports/reports-export.service.ts: texts of comma-separated values.
pub mod Csv
mod Tests
