-- ===== src/App.antt =====
-- The application around the services: its configuration (backend/app/core/config.py), the address of
-- a client (backend/app/modules/auth/dependencies.py) and the middleware that each request passes
-- (backend/app/core/middleware.py, backend/app/main.py).
mod Config
mod ClientIp
pub mod Middleware
pub mod Guarded
pub mod Forwarded
pub mod Marked
unfoldable pub use Config.*
unfoldable pub use ClientIp.*
