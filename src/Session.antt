-- ===== src/Session.antt =====
-- An AsyncSession (backend/app/db/session.py): the rows as the request sees them, the rows that
-- are committed, and the Celery messages sent so far. Actions return a value or raise.
pub mod Check
pub mod Messages
pub mod Actions
pub mod Keeps
pub mod Reports
pub mod Atomic
unfoldable pub use Actions.*
