-- ===== src/Admin/Accounts.antt =====
-- The accounts and exchange rates in the back office.
use online_banking_system.Prelude.{
  ℕ, Bool, true, ◌||◌, none, some, [], ◌∷◌, ◌==◌, if◌then◌else◌, is_some,
}
use online_banking_system.Prelude.Int.{pos}
use online_banking_system.Table.{lookup, find_by, insert, update}
use online_banking_system.Db.{Account, AccountStatus, ExchangeRate, Db, integrity_error}
use online_banking_system.Session.Actions.{Action, ◌>>=◌, ◌>>◌, pure, check, modify, commit, send}
use online_banking_system.Session.Check.{refuse}
use online_banking_system.Session.Messages.{audit, AuditAction}
use online_banking_system.Accounts.{is_closed}
use online_banking_system.Admin.Checks.{admin_get_customer, get_account}

-- AccountRepository.create with the defaults of the model
abbrev pub new_account : ℕ → ℕ → ℕ → Account
new_account customer_id account_number currency = record {
  customer_id = customer_id;
  account_number = account_number;
  currency = currency;
  balance = pos 0;
  status = AccountStatus.active;
  version = 0;
  closed_at = none;
}

unfoldable pub create_account_row : ℕ → Account → Db → Db
create_account_row id a db = record db { accounts = insert id a db.accounts }

-- The primary key and the UNIQUE account number of a new row, which the database checks when it is
-- flushed
unfoldable pub is_taken : ℕ → ℕ → Db → Bool
is_taken id account_number db =
    is_some (lookup id db.accounts)
    || is_some (find_by (λ a. a.account_number == account_number) db.accounts)

-- The account number is drawn by generate_account_number.
unfoldable pub create_account : ℕ → ℕ → ℕ → ℕ → ℕ → Action ℕ
unfolding admin_get_customer is_taken create_account_row
create_account admin id account_number customer_id currency = do
  customer ← check (admin_get_customer customer_id)
  check (λ db. refuse (is_taken id account_number db) integrity_error)
  modify (create_account_row id (new_account customer_id account_number currency))
  commit
  send (audit admin AuditAction.admin_account_created id ∷ [])
  pure id

-- A closing date is set, and never cleared.
abbrev pub with_status : ℕ → AccountStatus → Account → Account
with_status now status a = record a {
  status = status;
  closed_at = if is_closed status then some now else a.closed_at;
}

unfoldable pub update_account : ℕ → (Account → Account) → Db → Db
update_account id f db = record db { accounts = update id f db.accounts }

unfoldable pub update_account_status : ℕ → ℕ → ℕ → AccountStatus → Action ℕ
unfolding get_account update_account
update_account_status admin now account_id status = do
  account ← check (get_account account_id)
  modify (update_account account_id (with_status now status))
  commit
  send (audit admin AuditAction.admin_account_status_changed account_id ∷ [])
  pure account_id

-- ExchangeRateRepository.create: a rate is in force from the time of its row.
abbrev pub new_rate : ℕ → ℕ → ℕ → ℕ → ExchangeRate
new_rate now source_currency target_currency rate = record {
  source_currency = source_currency;
  target_currency = target_currency;
  rate = rate;
  in_force = true;
  valid_from = now;
  valid_to = none;
}

unfoldable pub create_rate_row : ℕ → ExchangeRate → Db → Db
create_rate_row id r db = record db { exchange_rates = insert id r db.exchange_rates }

unfoldable pub create_exchange_rate : ℕ → ℕ → ℕ → ℕ → ℕ → ℕ → Action ℕ
unfolding create_rate_row
create_exchange_rate admin id now source_currency target_currency rate = do
  modify (create_rate_row id (new_rate now source_currency target_currency rate))
  commit
  send (audit admin AuditAction.admin_exchange_rate_created id ∷ [])
  pure id
