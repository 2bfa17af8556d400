-- ===== src/Sync.antt =====
-- The synchronization worker (apps/worker).
pub mod Job
pub mod Importing
pub mod Processing
pub mod Pages
pub mod Loop
pub mod Missing
pub mod Completed
pub mod Jobs
pub mod Tests
