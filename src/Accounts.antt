-- ===== src/Accounts.antt =====
-- Accounts and customer profiles: AccountRepository (backend/app/modules/accounts/repository.py),
-- CustomerService (backend/app/modules/customers/service.py), and the dependencies that load a
-- resource of the signed-in customer (backend/app/modules/{accounts,cards,beneficiaries}/dependencies.py).
mod Owned
mod Balances
mod Profile
pub mod Totals
unfoldable pub use Owned.*
unfoldable pub use Balances.*
unfoldable pub use Profile.*
