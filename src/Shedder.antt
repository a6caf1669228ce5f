-- ===== src/Shedder.antt =====
-- Load shedding: src/core/ingress/capacity_shedder.ts, and the route guard on a level of
-- src/core/ingress/graceful_degradation.ts.
pub mod Levels
pub mod State
pub mod Evaluate
pub mod Overrides
pub mod Examples
