-- ===== src/Jobs/Worker.antt =====
-- The worker's iteration (jobs/jobmanager.go).
pub mod Claim
pub mod Process
pub mod Errors
pub mod Iteration
pub mod Sleep
