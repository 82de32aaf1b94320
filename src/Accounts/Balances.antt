-- ===== src/Accounts/Balances.antt =====
-- list_for_customer and total_balance_by_currency of AccountRepository, and the dashboard.
use online_banking_system.Prelude.{ℕ, Bool, true, false, [], ◌∷◌, ◌==◌, if◌then◌else◌, length}
use online_banking_system.Prelude.Int.{ℤ, pos, ◌+ℤ◌}
use online_banking_system.Table.{Table}
use online_banking_system.Db.{Account, AccountStatus, Customer, Db}

-- `account.status == AccountStatus.CLOSED`
abbrev pub is_closed : AccountStatus → Bool
is_closed AccountStatus.closed = true
is_closed _ = false

unfoldable pub list_for_customer : ℕ → Table Account → Table Account
list_for_customer customer_id [] = []
list_for_customer customer_id ((id, a) ∷ accounts) =
    let rest = list_for_customer customer_id accounts in
    if a.customer_id == customer_id then (id, a) ∷ rest else rest

-- `totals[currency] = totals.get(currency, Decimal("0")) + balance`
unfoldable pub add_total : ℕ → ℤ → Table ℤ → Table ℤ
add_total currency balance [] = (currency, pos 0 +ℤ balance) ∷ []
add_total currency balance ((c, total) ∷ totals) =
    let rest = add_total currency balance totals in
    if c == currency then (c, total +ℤ balance) ∷ totals else (c, total) ∷ rest

-- The loop over the accounts, which skips closed ones.
unfoldable pub add_totals : Table Account → Table ℤ → Table ℤ
unfolding add_total
add_totals [] totals = totals
add_totals ((_, a) ∷ accounts) totals =
    add_totals accounts
      (if is_closed a.status then totals else add_total a.currency a.balance totals)

unfoldable pub total_balance_by_currency : ℕ → Table Account → Table ℤ
unfolding list_for_customer add_totals
total_balance_by_currency customer_id accounts =
    add_totals (list_for_customer customer_id accounts) []

-- DashboardResponse, without the names.
pub record DashboardResponse : Type 0 where
  pub total_accounts : ℕ
  pub balances_by_currency : Table ℤ
  pub accounts : Table Account

unfoldable pub get_dashboard : Customer → Db → DashboardResponse
unfolding total_balance_by_currency
get_dashboard customer db = record {
  total_accounts = length (list_for_customer customer.id db.accounts);
  balances_by_currency = total_balance_by_currency customer.id db.accounts;
  accounts = list_for_customer customer.id db.accounts;
}
