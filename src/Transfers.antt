-- ===== src/Transfers.antt =====
-- Money transfers between two accounts: the methods of TransactionService
-- (backend/app/modules/transactions/service.py) from _validate_and_create_pending_transaction to
-- execute_scheduled_transfer.
mod Validation
pub mod Locked
pub mod Facts
pub mod Settled
pub mod Outcome
pub mod Conservation
pub mod Opening
pub mod Standing
pub mod Authority
pub mod Guessing
pub mod Budget
pub mod Access
mod Execution
mod Challenge
mod Confirm
unfoldable pub use Validation.*
unfoldable pub use Access.*
unfoldable pub use Execution.*
unfoldable pub use Challenge.*
unfoldable pub use Confirm.*
