-- ===== src/Transactions.antt =====
-- The repositories of transactions, of their OTP challenges and of exchange rates:
-- backend/app/modules/transactions/repository.py, backend/app/modules/exchange_rates/repository.py.
mod Repository
mod Confirmations
mod Rates
pub mod Accepted
pub mod Selection
unfoldable pub use Repository.*
unfoldable pub use Confirmations.*
unfoldable pub use Rates.*
