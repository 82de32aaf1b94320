-- ===== src/Admin/Restored.antt =====
-- A deletion that is undone.
use online_banking_system.Prelude.{ℕ, some}
use online_banking_system.Db.{Db}
use online_banking_system.Accounts.{update_customer}

module _ (admin now id : ℕ) (db : Db) where
  abbrev removed : Db
  removed = update_customer id (λ c. record c { deleted_at = some now }) db
