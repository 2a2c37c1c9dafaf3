-- ===== src/Authentication.antt =====
-- The parts of src/features/authentication.
pub mod Models
pub mod Refresh
pub mod RateLimit
pub mod PrincipalCache
pub mod Store
pub mod Login
pub mod Logout
pub mod Register
pub mod Confirm
pub mod RequestToken
pub mod Resolve
pub mod AuditLog
pub mod Purge
mod Tests
