-- ===== src/Events.antt =====
-- src/events: the administration of events, the check-in at the gate and the entry passes.
pub mod Slug
pub mod Types
pub mod Token
pub mod Gate
pub mod Service
mod Tests
