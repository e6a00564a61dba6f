-- ===== src/RateLimit.antt =====
-- The Redis token bucket of internal/storage/redis/redis.go (its Lua script and the call of it) and
-- internal/service/rate_limiter_service.go.
pub mod Script
pub mod Exact
pub mod Expiry
pub mod Service
pub mod Isolation
