-- ===== src/RateLimit.antt =====
-- The rate limiter of backend/internal/ratelimit/limiter.go, and what bounds it.
pub mod Limiter
mod Entries
pub mod Memory
mod Budget
pub mod Bounds
mod Tests
