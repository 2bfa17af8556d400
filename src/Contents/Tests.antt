-- ===== src/Contents/Tests.antt =====
-- The properties of the content requests on a small workspace.
pub mod Fixtures
pub mod Moves
pub mod Drafts
pub mod Runs
