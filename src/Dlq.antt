-- ===== src/Dlq.antt =====
-- The dead letter queue: src/queue/dead_letter_queue.ts over the table of
-- src/database/migrations (dead_letter_queue).
pub mod Table
pub mod Metrics
pub mod Manager
pub mod Runs
pub mod Retrying
pub mod Examples
