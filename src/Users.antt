-- ===== src/Users.antt =====
-- apps/api/src/modules/users.
pub mod Managing
pub mod Managers
pub mod Deactivation
pub mod SignedOut
pub mod Tests
