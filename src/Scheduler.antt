-- ===== src/Scheduler.antt =====
-- The distributed job scheduler: src/scheduler over the table of
-- src/database/migrations/011_distributed_jobs.sql.
pub mod Store
pub mod Metrics
pub mod Worker
pub mod Oldest
pub mod Histories
pub mod Leases
pub mod Retries
pub mod Examples
