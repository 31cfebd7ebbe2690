-- ===== src/Jobs.antt =====
-- internal/jobs: the registry of jobs (jobs.go) and the clean-up of old rows (cleanup.go). The cron library,
-- logging and the measure of time are left out; a job's function and the store are parameters. A moment is
-- a number of nanoseconds.
pub mod Registry
pub mod Cleanup
pub mod Steps
pub mod Retention
mod Tests
