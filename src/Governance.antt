-- ===== src/Governance.antt =====
-- framework/governance: circuit breaker, rate limiter, retry policy, traffic router.
pub mod Breaker
pub mod Limiter
pub mod Retry
