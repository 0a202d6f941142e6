-- ===== src/Jobs.antt =====
-- src/jobs: jobs, schedules, their stores, the job service and its intervals.
pub mod Models
pub mod Store
pub mod Service
pub mod Interval
