-- ===== src/Contents.antt =====
-- The content module (apps/api/src/modules/contents).
pub mod Domain
pub mod Rules
pub mod Revisions
pub mod Transition
pub mod Reviewing
pub mod Versioning
pub mod Moves
pub mod Fields
pub mod Applying
pub mod Editing
pub mod Rollback
pub mod Steps
pub mod Consistent
pub mod Requests
pub mod Refinement
pub mod Decisions
pub mod Edits
pub mod Drafts
pub mod Tests
