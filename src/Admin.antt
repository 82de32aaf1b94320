-- ===== src/Admin.antt =====
-- Back office: AdminService (backend/app/modules/admin/service.py). `admin` is the id of the
-- signed-in administrator; the reversal of a transaction is online_banking_system.Reversal.
mod Checks
mod Customers
mod Accounts
mod Cards
mod Beneficiaries
mod Views
mod Router
pub mod Guarded
pub mod Audited
pub mod Restored
mod Resting
pub mod Movements
pub mod Frozen
unfoldable pub use Checks.*
unfoldable pub use Customers.*
unfoldable pub use Accounts.*
unfoldable pub use Cards.*
unfoldable pub use Beneficiaries.*
unfoldable pub use Router.*
unfoldable pub use Views.*
