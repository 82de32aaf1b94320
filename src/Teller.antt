-- ===== src/Teller.antt =====
-- Cash in and out at the counter: TransactionService.deposit and .withdraw
-- (backend/app/modules/transactions/service.py). `others` is what other requests commit while the
-- account's lock is awaited.
mod Checks
pub mod Movement
pub mod Outcome
unfoldable pub use Checks.*
use online_banking_system.Prelude.{ℕ, none, some, [], ◌∷◌, ◌++◌}
use online_banking_system.Db.{TransactionType, debit, credit, Db}
use online_banking_system.Session.Actions.{
  Action, continue, ◌>>=◌, ◌>>◌, pure, raise, check, modify, commit, send, wait, try_except,
}
use online_banking_system.Session.Messages.{audit, AuditAction}
use online_banking_system.Ledger.{post}
use online_banking_system.Transactions.{Stamp, NewTransaction, create, mark_success}

abbrev pub deposit_row : ℕ → ℕ → ℕ → ℕ → NewTransaction
deposit_row account_id amount currency admin = record {
  transaction_type = TransactionType.deposit;
  sender_account_id = none;
  receiver_account_id = some account_id;
  amount = amount;
  currency = currency;
  exchange_rate_id = none;
  converted_amount = none;
  performed_by_user_id = some admin;
  reversal_of_transaction_id = none;
  card_id = none;
}

abbrev pub withdrawal_row : ℕ → ℕ → ℕ → ℕ → NewTransaction
withdrawal_row account_id amount currency admin = record {
  transaction_type = TransactionType.withdrawal;
  sender_account_id = some account_id;
  receiver_account_id = none;
  amount = amount;
  currency = currency;
  exchange_rate_id = none;
  converted_amount = none;
  performed_by_user_id = some admin;
  reversal_of_transaction_id = none;
  card_id = none;
}

-- What a one-sided operation writes once its checks have passed: the transaction, the balance with
-- its ledger entry, and the status.
unfoldable pub deposit_writes : Stamp → NewTransaction → ℕ → Db → Db
unfolding create mark_success
deposit_writes stamp row account_id db =
    mark_success stamp.id stamp.now
      (post credit stamp.id account_id row.amount row.currency (create stamp row db))

unfoldable pub withdrawal_writes : Stamp → NewTransaction → ℕ → Db → Db
unfolding create mark_success
withdrawal_writes stamp row account_id db =
    mark_success stamp.id stamp.now
      (post debit stamp.id account_id row.amount row.currency (create stamp row db))

unfoldable pub deposit : (Db → Db) → Stamp → ℕ → ℕ → ℕ → ℕ → Action ℕ
unfolding deposit_checks deposit_writes
deposit others stamp account_id amount currency admin =
    try_except
      (do
        wait others
        account ← check (deposit_checks account_id currency)
        modify (deposit_writes stamp (deposit_row account_id amount currency admin) account_id)
        commit
        send (audit admin AuditAction.deposit account_id ∷ [])
        pure stamp.id)
      raise

unfoldable pub withdraw : (Db → Db) → Stamp → ℕ → ℕ → ℕ → ℕ → Action ℕ
unfolding withdrawal_checks withdrawal_writes
withdraw others stamp account_id amount currency admin =
    try_except
      (do
        wait others
        account ← check (withdrawal_checks account_id amount currency)
        modify
            (withdrawal_writes stamp (withdrawal_row account_id amount currency admin) account_id)
        commit
        send (audit admin AuditAction.withdrawal account_id ∷ [])
        pure stamp.id)
      raise
