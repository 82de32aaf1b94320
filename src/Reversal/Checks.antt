-- ===== src/Reversal/Checks.antt =====
-- The checks of reverse_transaction, by the type of the original.
use online_banking_system.Prelude.{ℕ, Option, none, some, is_some}
use online_banking_system.Prelude.Int.{pos, ltb_ℤ}
use online_banking_system.Table.{lookup}
use online_banking_system.Db.{
  not_found, account_not_active, insufficient_balance, transaction_not_reversible, assertion_failed,
  key_error, is_active, is_success, Transaction, TransactionType, Db,
}
use online_banking_system.Session.Check.{Result, ok, err, ◌>>=◌, ◌>>◌, require, refuse, or_raise}
use online_banking_system.Transactions.{get_by_reversal_of}

pub record Reversal : Type 0 where
  pub original : Transaction
  pub new_sender_id : Option ℕ
  pub new_receiver_id : Option ℕ
  pub new_type : TransactionType

unfoldable pub reverse_transfer : Db → Transaction → Result Reversal
reverse_transfer db original = do
  sender_id ← or_raise original.sender_account_id assertion_failed
  receiver_id ← or_raise original.receiver_account_id assertion_failed
  reversal_sender ← or_raise (lookup receiver_id db.accounts) key_error
  reversal_receiver ← or_raise (lookup sender_id db.accounts) key_error
  require (is_active reversal_sender.status) account_not_active
  require (is_active reversal_receiver.status) account_not_active
  refuse (ltb_ℤ reversal_sender.balance (pos original.amount)) insufficient_balance
  ok (record {
    original = original;
    new_sender_id = some receiver_id;
    new_receiver_id = some sender_id;
    new_type = TransactionType.transfer;
  })

unfoldable pub reverse_deposit : Db → Transaction → Result Reversal
reverse_deposit db original = do
  account_id ← or_raise original.receiver_account_id assertion_failed
  account ← or_raise (lookup account_id db.accounts) assertion_failed
  require (is_active account.status) account_not_active
  refuse (ltb_ℤ account.balance (pos original.amount)) insufficient_balance
  ok (record {
    original = original;
    new_sender_id = some account_id;
    new_receiver_id = none;
    new_type = TransactionType.withdrawal;
  })

unfoldable pub reverse_withdrawal : Db → Transaction → Result Reversal
reverse_withdrawal db original = do
  account_id ← or_raise original.sender_account_id assertion_failed
  account ← or_raise (lookup account_id db.accounts) assertion_failed
  require (is_active account.status) account_not_active
  ok (record {
    original = original;
    new_sender_id = none;
    new_receiver_id = some account_id;
    new_type = TransactionType.deposit;
  })

unfoldable pub by_type : Db → Transaction → TransactionType → Result Reversal
unfolding reverse_transfer reverse_deposit reverse_withdrawal
by_type db original TransactionType.transfer = reverse_transfer db original
by_type db original TransactionType.deposit = reverse_deposit db original
by_type db original TransactionType.withdrawal = reverse_withdrawal db original
by_type db original TransactionType.card_payment = err transaction_not_reversible

unfoldable pub reversal_checks : ℕ → Db → Result Reversal
unfolding get_by_reversal_of by_type
reversal_checks id db = do
  original ← or_raise (lookup id db.transactions) not_found
  require (is_success original.status) transaction_not_reversible
  refuse (is_some (get_by_reversal_of id db)) transaction_not_reversible
  by_type db original original.transaction_type
