-- ===== src/Points.antt =====
-- src/points: the scoring of clubs.
pub mod Evaluation
pub mod Period
pub mod Entries
pub mod Tests
