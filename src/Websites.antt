-- ===== src/Websites.antt =====
-- apps/api/src/modules/websites.
pub mod Managing
pub mod Slugs
pub mod Conflicts
pub mod Requests
pub mod Runs
pub mod Tests
