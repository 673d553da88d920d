-- ===== src/Notifications.antt =====
-- src/notifications: mail to people, from the request to the provider that delivers it.
pub mod Rewrite
pub mod Usage
pub mod Pool
pub mod Outbox
pub mod Sender
pub mod Dispatch
pub mod Tests
