-- ===== src/Access.antt =====
-- Who may do what: src/common/types (access.ts, permission-keys.ts), src/common/scope, and the
-- resolver and the guard of src/rbac.
pub mod Types
pub mod Resolver
pub mod Scope
pub mod Guard
mod Tests
