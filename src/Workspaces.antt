-- ===== src/Workspaces.antt =====
-- apps/api/src/modules/workspaces.
pub mod Members
pub mod Owners
pub mod Managing
pub mod Founding
pub mod Tests
