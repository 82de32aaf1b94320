-- ===== src/Transfers/Validation.antt =====
-- _validate_and_create_pending_transaction: the checks before a transfer, up to the row to insert.
use online_banking_system.Prelude.{ℕ, none, some, ◌==◌, if◌then◌else◌, Option}
use online_banking_system.Prelude.Int.{pos, ltb_ℤ}
use online_banking_system.Table.{lookup, find_by}
use online_banking_system.Db.{
  Account, is_active, TransactionType, Db, Customer, not_found, account_not_active,
  currency_mismatch, same_account_transfer, insufficient_balance, exchange_rate_not_found,
}
use online_banking_system.Session.Check.{Result, ok, ◌>>=◌, ◌>>◌, require, refuse, or_raise}
use online_banking_system.Transactions.{NewTransaction, get_active_rate, converted}

-- TransferMoneyRequest, and the columns of a scheduled payment: what is to be moved.
pub record TransferRequest : Type 0 where
  pub sender_account_id : ℕ
  pub receiver_account_number : ℕ
  pub amount : ℕ
  pub currency : ℕ

-- The exchange rate that applies, if any, and the amount to credit.
unfoldable pub conversion : Db → ℕ → ℕ → ℕ → ℕ → Result (Option ℕ × ℕ)
unfolding get_active_rate converted
conversion db source target amount now = if source == target then ok (none, amount) else do
  rate ← or_raise (get_active_rate source target now db.exchange_rates) exchange_rate_not_found
  ok (some rate.0, converted amount rate.1.rate)

unfoldable pub validate_sender : Db → Customer → TransferRequest → Result Account
validate_sender db customer payload = do
  sender ← or_raise (lookup payload.sender_account_id db.accounts) not_found
  require (sender.customer_id == customer.id) not_found
  require (is_active sender.status) account_not_active
  require (payload.currency == sender.currency) currency_mismatch
  ok sender

unfoldable pub validate_receiver : Db → TransferRequest → Result (ℕ × Account)
validate_receiver db payload = do
  receiver ←
      or_raise (find_by (λ a. a.account_number == payload.receiver_account_number) db.accounts)
        not_found
  refuse (receiver.0 == payload.sender_account_id) same_account_transfer
  require (is_active receiver.1.status) account_not_active
  ok receiver

unfoldable pub validate_transfer : Db → Customer → TransferRequest → ℕ → Result NewTransaction
validate_transfer db customer payload now = do
  sender ← validate_sender db customer payload
  receiver ← validate_receiver db payload
  refuse (ltb_ℤ sender.balance (pos payload.amount)) insufficient_balance
  converted_by ← conversion db sender.currency receiver.1.currency payload.amount now
  ok (record {
    transaction_type = TransactionType.transfer;
    sender_account_id = some payload.sender_account_id;
    receiver_account_id = some receiver.0;
    amount = payload.amount;
    currency = sender.currency;
    exchange_rate_id = converted_by.0;
    converted_amount = some converted_by.1;
    performed_by_user_id = none;
    reversal_of_transaction_id = none;
    card_id = none;
  })
