-- ===== src/Transactions/Repository.antt =====
-- TransactionRepository. A write is an UPDATE of the row by its id.
use online_banking_system.Prelude.{ℕ, false, Option, none, some, holds}
use online_banking_system.Table.{insert, update, find_by}
use online_banking_system.Db.{
  Transaction, TransactionStatus, success, failed, TransactionType, Reason, Db,
}

-- What a request draws from outside: a fresh uuid, a reference number, the time (seconds).
pub record Stamp : Type 0 where
  pub id : ℕ
  pub reference_number : ℕ
  pub now : ℕ

-- The arguments of `create` besides the defaults.
pub record NewTransaction : Type 0 where
  pub transaction_type : TransactionType
  pub sender_account_id : Option ℕ
  pub receiver_account_id : Option ℕ
  pub amount : ℕ
  pub currency : ℕ
  pub exchange_rate_id : Option ℕ
  pub converted_amount : Option ℕ
  pub performed_by_user_id : Option ℕ
  pub reversal_of_transaction_id : Option ℕ
  pub card_id : Option ℕ

unfoldable pub new_row : Stamp → NewTransaction → Transaction
new_row stamp t = record {
  reference_number = stamp.reference_number;
  transaction_type = t.transaction_type;
  sender_account_id = t.sender_account_id;
  receiver_account_id = t.receiver_account_id;
  amount = t.amount;
  currency = t.currency;
  exchange_rate_id = t.exchange_rate_id;
  converted_amount = t.converted_amount;
  status = TransactionStatus.pending;
  otp_verified = false;
  failure_reason = none;
  performed_by_user_id = t.performed_by_user_id;
  reversal_of_transaction_id = t.reversal_of_transaction_id;
  card_id = t.card_id;
  completed_at = none;
}

unfoldable pub create : Stamp → NewTransaction → Db → Db
unfolding new_row
create stamp t db = record db { transactions = insert stamp.id (new_row stamp t) db.transactions }

unfoldable pub failed_row : Reason → ℕ → Transaction → Transaction
failed_row reason now t = record t {
  status = failed;
  failure_reason = some reason;
  completed_at = some now;
}

unfoldable pub mark_failed : ℕ → Reason → ℕ → Db → Db
unfolding failed_row
mark_failed id reason now db = record db {
  transactions = update id (failed_row reason now) db.transactions;
}

unfoldable pub success_row : ℕ → Transaction → Transaction
success_row now t = record t { status = success; completed_at = some now }

unfoldable pub mark_success : ℕ → ℕ → Db → Db
unfolding success_row
mark_success id now db = record db { transactions = update id (success_row now) db.transactions }

unfoldable pub get_by_reversal_of : ℕ → Db → Option (ℕ × Transaction)
get_by_reversal_of id db = find_by (λ t. holds t.reversal_of_transaction_id id) db.transactions
