-- ===== src/Api.antt =====
-- internal/api: the middleware, the handlers and the router.
pub mod RateLimiter
pub mod Messages
pub mod Auth
pub mod Handlers
pub mod Handling
pub mod Router
pub mod Metrics
