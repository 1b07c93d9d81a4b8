-- ===== src/Canary.antt =====
-- The writer of metadata to Canary: its rate limiter, its retries, its circuit breaker, its queue and
-- its payloads (`canary/`).
pub mod TokenBucket
pub mod RetryPolicy
pub mod CircuitBreaker
pub mod Session
pub mod Metrics
pub mod Client
pub mod Retries
pub mod Dispatch
pub mod Outcomes
pub mod Queue
pub mod Tokens
pub mod Accounts
pub mod Tests
