-- ===== src/Teller/Checks.antt =====
-- The checks of deposit and withdraw on the locked account.
use online_banking_system.Prelude.{ℕ, ◌==◌}
use online_banking_system.Prelude.Int.{pos, ltb_ℤ}
use online_banking_system.Table.{lookup}
use online_banking_system.Db.{
  not_found, account_not_active, currency_mismatch, insufficient_balance, is_active, Account, Db,
}
use online_banking_system.Session.Check.{Result, ok, ◌>>=◌, ◌>>◌, require, refuse, or_raise}

unfoldable pub deposit_checks : ℕ → ℕ → Db → Result Account
deposit_checks account_id currency db = do
  account ← or_raise (lookup account_id db.accounts) not_found
  require (is_active account.status) account_not_active
  require (account.currency == currency) currency_mismatch
  ok account

unfoldable pub withdrawal_checks : ℕ → ℕ → ℕ → Db → Result Account
withdrawal_checks account_id amount currency db = do
  account ← or_raise (lookup account_id db.accounts) not_found
  require (is_active account.status) account_not_active
  require (account.currency == currency) currency_mismatch
  refuse (ltb_ℤ account.balance (pos amount)) insufficient_balance
  ok account
