-- ===== src/Portal.antt =====
-- What a signed-in customer can do: the endpoints of
-- backend/app/modules/{transactions,cards,customers,beneficiaries,scheduled_payments,accounts}/router.py.
mod Router
mod Spared
mod Writes
mod Methods
mod Spending
pub mod Protected
mod Transactions
pub mod Listed
mod Views
unfoldable pub use Router.*
unfoldable pub use Transactions.*
unfoldable pub use Views.*
