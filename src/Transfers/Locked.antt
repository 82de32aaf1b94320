-- ===== src/Transfers/Locked.antt =====
-- The checks of _execute_locked_transfer under its locks.
use online_banking_system.Prelude.{ℕ, none, some}
use online_banking_system.Prelude.Int.{pos, ltb_ℤ}
use online_banking_system.Table.{lookup}
use online_banking_system.Db.{
  not_found, account_not_active, insufficient_balance, transaction_already_processed,
  assertion_failed, key_error, is_active, is_pending, Account, Transaction, Db,
}
use online_banking_system.Session.Check.{Result, ok, ◌>>=◌, ◌>>◌, require, refuse, or_raise}

-- The transfer that may be executed: its accounts and amounts.
pub record Settlement : Type 0 where
  pub sender_id : ℕ
  pub receiver_id : ℕ
  pub sender : Account
  pub receiver : Account
  pub amount : ℕ
  pub credit_amount : ℕ

-- `converted_amount if converted_amount is not None else amount`
abbrev pub credit_amount_of : Transaction → ℕ
credit_amount_of t = elim t.converted_amount [ none ↦ t.amount | some n ↦ n ]

unfoldable pub locked_accounts : Db → Transaction → Result Settlement
locked_accounts db t = do
  sender_id ← or_raise t.sender_account_id assertion_failed
  receiver_id ← or_raise t.receiver_account_id assertion_failed
  sender ← or_raise (lookup sender_id db.accounts) key_error
  receiver ← or_raise (lookup receiver_id db.accounts) key_error
  require (is_active sender.status) account_not_active
  require (is_active receiver.status) account_not_active
  refuse (ltb_ℤ sender.balance (pos t.amount)) insufficient_balance
  ok (record {
    sender_id = sender_id;
    receiver_id = receiver_id;
    sender = sender;
    receiver = receiver;
    amount = t.amount;
    credit_amount = credit_amount_of t;
  })

unfoldable pub locked_checks : ℕ → Db → Result Settlement
unfolding locked_accounts
locked_checks id db = do
  locked ← or_raise (lookup id db.transactions) not_found
  require (is_pending locked.status) transaction_already_processed
  locked_accounts db locked
