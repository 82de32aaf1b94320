-- ===== src/Schedules.antt =====
-- Scheduled payments: backend/app/modules/scheduled_payments/{repository,service}.py, and the two
-- periodic jobs of backend/app/background_tasks/tasks.py. Instants are in seconds.
pub mod Stopped
pub mod Cancelled
pub mod Expired
pub mod Overwritten
pub mod Standing
pub mod Advanced
mod Repository
mod Service
mod Sweep
mod Expiry
unfoldable pub use Repository.*
unfoldable pub use Service.*
unfoldable pub use Sweep.*
unfoldable pub use Expiry.*
