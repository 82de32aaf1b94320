-- ===== src/Db.antt =====
-- The rows of the banking tables and the errors of the services: the models of
-- backend/app/modules/{accounts,transactions,ledger_entries,cards,exchange_rates}/models.py and
-- backend/app/core/exceptions.py. UUIDs, account numbers, currencies, hashes and instants are only
-- compared (instants also ordered), so they are numbers. Amounts are in cents (NUMERIC(18,2)).
mod Rows
mod Errors
pub mod Responses
pub mod Constraints
pub use Rows.*
pub use Errors.*
