-- ===== src/Auth.antt =====
-- Authorization (apps/api/src/common/auth), and the sessions and passwords (apps/api/src/modules/auth).
pub mod Permissions
pub mod Types
pub mod Guards
pub mod Admission
pub mod Passwords
pub mod Tokens
pub mod RateLimit
pub mod Counters
pub mod Sessions
pub mod Entry
pub mod Revocation
pub mod Rotation
pub mod Reuse
pub mod PasswordChange
pub mod TokenForm
pub mod LoggedIn
pub mod Tests
pub mod SessionTests
