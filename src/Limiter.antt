-- ===== src/Limiter.antt =====
-- The rate limiter: src/security/rate_limiter.ts.
pub mod Buckets
pub mod Rate
pub mod Waiting
pub mod Examples
