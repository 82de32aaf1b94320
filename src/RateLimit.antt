-- ===== src/RateLimit.antt =====
-- Rate limiting: backend/app/core/rate_limiter.py, the RateLimitMiddleware of
-- backend/app/core/middleware.py and the limits of backend/app/main.py.
pub mod Texts
mod InMemory
mod Limits
mod Redis
mod Windows
pub mod History
pub mod Refinement
pub mod Bound
pub mod Longest
unfoldable pub use Texts.*
unfoldable pub use InMemory.*
unfoldable pub use Limits.*
unfoldable pub use Redis.*
