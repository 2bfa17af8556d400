-- ===== src/ContentProfiles.antt =====
-- apps/api/src/modules/content-profiles.
pub mod Managing
pub mod Defaults
pub mod Requests
pub mod Invariant
pub mod Runs
pub mod Tests
