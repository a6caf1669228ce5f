-- ===== src/Flags.antt =====
-- Feature flags: src/core/ingress/feature_flags.ts, and the route guard on a flag of
-- src/core/ingress/graceful_degradation.ts.
pub mod Registry
pub mod Effective
pub mod Enabled
pub mod Reload
pub mod Examples
