-- ===== src/Contents/Rollback.antt =====
-- The content requests of contents.service.ts, when they throw.
pub mod Checks
pub mod Reads
pub mod Requests
pub mod Deciding
pub mod Drafts
