-- ===== src/Portal/Views.antt =====
-- The endpoints of customers that only read: backend/app/modules/{accounts,cards,customers,
-- beneficiaries,scheduled_payments,transactions,exchange_rates}/router.py, without the PDF statement.
-- The order of lists is left out, but for that of pages.
use online_banking_system.Prelude.{ℕ, Bool, ◌&&◌, Option, some, List, ◌==◌, is_none, is_some, leb}
use online_banking_system.Prelude.Int.{ℤ}
use online_banking_system.Table.{Table, lookup}
use online_banking_system.Pages.{where_rows}
use online_banking_system.Db.{
  not_found, Account, Card, Beneficiary, ScheduledPayment, ExchangeRate, Transaction, LedgerEntry,
  CustomerRow, UserRole, Customer, Db,
}
use online_banking_system.Session.Check.{Result, ok, ◌>>=◌, or_raise}
use online_banking_system.Transactions.{not_ended}
use online_banking_system.Accounts.{
  get_owned_account, get_owned_card, active_beneficiary, list_for_customer, get_dashboard,
  DashboardResponse,
}
use online_banking_system.Auth.Crypto.{Crypto}
use online_banking_system.Auth.{require_role, get_current_user, get_current_customer}
use online_banking_system.Portal.Transactions.{
  list_transactions, get_owned_transaction, search_by_reference, entries_of, is_customers,
}

-- CardRepository.list_for_customer
unfoldable pub cards_of : Customer → Db → Table Card
unfolding where_rows
cards_of customer db =
    where_rows
      (λ c. is_customers customer (lookup c.account_id db.accounts) && is_none c.deleted_at)
      db.cards

-- BeneficiaryRepository.list_for_customer
unfoldable pub beneficiaries_of : ℕ → Db → Table Beneficiary
unfolding where_rows
beneficiaries_of customer_id db =
    where_rows (λ b. b.customer_id == customer_id && is_some (active_beneficiary (some b)))
      db.beneficiaries

-- ScheduledPaymentRepository.list_for_customer
unfoldable pub schedules_of : ℕ → Db → Table ScheduledPayment
unfolding where_rows
schedules_of customer_id db = where_rows (λ p. p.customer_id == customer_id) db.scheduled_payments

-- ExchangeRateRepository.list_active, without its order
unfoldable pub list_active : ℕ → Db → Table ExchangeRate
unfolding where_rows
list_active now db =
    where_rows (λ r. r.in_force && leb r.valid_from now && not_ended r.valid_to now)
      db.exchange_rates

-- AccountBalanceResponse
pub record AccountBalanceResponse : Type 0 where
  pub account_id : ℕ
  pub currency : ℕ
  pub balance : ℤ

-- TransactionDetailResponse
pub record TransactionDetailResponse : Type 0 where
  pub transaction : Transaction
  pub ledger_entries : List LedgerEntry

-- CustomerProfileResponse
pub record CustomerProfileResponse : Type 0 where
  pub customer : CustomerRow
  pub totp_enabled : Bool

module _ (crypto : Crypto) (now : ℕ) (credentials : Option ℕ) (db : Db) where
  -- A view of the signed-in customer.
  abbrev pub customer_view : {A : Type 0} → (Customer → Result A) → Result A
  customer_view view = do customer ← get_current_customer crypto now credentials db; view customer

  unfoldable pub view_accounts : Result (Table Account)
  unfolding get_current_customer list_for_customer
  view_accounts = customer_view (λ customer. ok (list_for_customer customer.id db.accounts))

  unfoldable pub view_account : ℕ → Result Account
  unfolding get_current_customer get_owned_account
  view_account id = customer_view (λ customer. get_owned_account customer id db)

  unfoldable pub view_balance : ℕ → Result AccountBalanceResponse
  unfolding get_current_customer get_owned_account
  view_balance id = customer_view (λ customer. do
    account ← get_owned_account customer id db
    ok (record { account_id = id; currency = account.currency; balance = account.balance }))

  unfoldable pub view_cards : Result (Table Card)
  unfolding get_current_customer cards_of
  view_cards = customer_view (λ customer. ok (cards_of customer db))

  unfoldable pub view_card : ℕ → Result Card
  unfolding get_current_customer get_owned_card
  view_card id = customer_view (λ customer. get_owned_card customer id db)

  unfoldable pub view_beneficiaries : Result (Table Beneficiary)
  unfolding get_current_customer beneficiaries_of
  view_beneficiaries = customer_view (λ customer. ok (beneficiaries_of customer.id db))

  unfoldable pub view_schedules : Result (Table ScheduledPayment)
  unfolding get_current_customer schedules_of
  view_schedules = customer_view (λ customer. ok (schedules_of customer.id db))

  unfoldable pub view_dashboard : Result DashboardResponse
  unfolding get_current_customer get_dashboard
  view_dashboard = customer_view (λ customer. ok (get_dashboard customer db))

  unfoldable pub view_profile : Result CustomerProfileResponse
  unfolding get_current_customer require_role
  view_profile = do
    customer ← get_current_customer crypto now credentials db
    user ← require_role crypto UserRole.customer now credentials db
    profile ← or_raise (lookup customer.id db.customers) not_found
    ok (record { customer = profile; totp_enabled = user.1.totp_enabled })

  unfoldable pub view_transactions :
      (Table Transaction → Table Transaction) → ℕ → ℕ → Result (Table Transaction × ℕ)
  unfolding get_current_customer list_transactions
  view_transactions order page page_size =
      customer_view (λ customer. ok (list_transactions order customer page page_size db))

  unfoldable pub find_transaction : ℕ → Result (ℕ × Transaction)
  unfolding get_current_customer search_by_reference
  find_transaction reference = customer_view (λ customer. search_by_reference customer reference db)

  unfoldable pub view_transaction : ℕ → Result TransactionDetailResponse
  unfolding get_current_customer get_owned_transaction entries_of
  view_transaction id = customer_view (λ customer. do
    transaction ← get_owned_transaction customer id db
    ok (record { transaction = transaction; ledger_entries = entries_of id db.ledger }))

  unfoldable pub view_exchange_rates : Result (Table ExchangeRate)
  unfolding get_current_user list_active
  view_exchange_rates = do
    user ← get_current_user crypto now credentials db
    ok (list_active now db)
