-- ===== src/Roles.antt =====
-- src/rbac: the administration of roles, of their grants to users, and of the accounts.
pub mod Types
pub mod Permissions
pub mod Service
pub mod Accounts
pub mod Grounded
pub mod Administration
pub mod Grants
pub mod Scopes
mod Tests
