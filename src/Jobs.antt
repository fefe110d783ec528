-- ===== src/Jobs.antt =====
-- The job engine (backend/src/services/jobService.ts, with the statements of
-- backend/src/routes/jobs.ts that write the jobs table).
pub mod Table
pub mod Service
pub mod Backoff
pub mod Claim
pub mod Reaper
pub mod Runs
pub mod System
mod Tests
