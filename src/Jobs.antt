-- ===== src/Jobs.antt =====
-- Background jobs: internal/jobs.
pub mod Model
pub mod Store
pub mod Run
pub mod Service
pub mod History
pub mod Examples
pub mod Logs
