-- ===== src/TwoPhase.antt =====
-- The two-phase status update: src/core/state.
pub mod Tables
pub mod Rollback
pub mod Controller
pub mod Cleanup
pub mod Effects
pub mod Evolution
pub mod History
pub mod Outcomes
pub mod Cascade
pub mod Sweep
pub mod Counters
pub mod Race
pub mod Examples
