-- ===== src/Reversal.antt =====
-- TransactionService.reverse_transaction (backend/app/modules/transactions/service.py). `others` is
-- what other requests commit while the lock on the original is awaited.
pub mod Checks
pub mod Outcome
pub mod Restoration
use online_banking_system.Prelude.{ℕ, Option, none, some, [], ◌∷◌}
use online_banking_system.Table.{update}
use online_banking_system.Db.{Transaction, reversed, debit, credit, LedgerEntryType, Db}
use online_banking_system.Session.Actions.{
  Action, continue, ◌>>=◌, ◌>>◌, pure, raise, check, modify, commit, send, wait, try_except,
}
use online_banking_system.Session.Messages.{audit, admin_transaction_reversed}
use online_banking_system.Ledger.{post}
use online_banking_system.Transactions.{Stamp, NewTransaction, create, mark_success}
use Checks.{Reversal, reversal_checks}

unfoldable pub reversal_row : Reversal → ℕ → ℕ → NewTransaction
reversal_row r id admin = record {
  transaction_type = r.new_type;
  sender_account_id = r.new_sender_id;
  receiver_account_id = r.new_receiver_id;
  amount = r.original.amount;
  currency = r.original.currency;
  exchange_rate_id = none;
  converted_amount = none;
  performed_by_user_id = some admin;
  reversal_of_transaction_id = some id;
  card_id = none;
}

-- `if new_sender_id is not None: ...`, and the same for the receiver
unfoldable pub post_side : LedgerEntryType → ℕ → Option ℕ → Transaction → Db → Db
post_side kind id none original db = db
post_side kind id (some account_id) original db =
    post kind id account_id original.amount original.currency db

unfoldable pub reversal_writes : Stamp → ℕ → ℕ → Reversal → Db → Db
unfolding create mark_success post_side reversal_row
reversal_writes stamp id admin r db =
    let created = create stamp (reversal_row r id admin) db in
    let debited = post_side debit stamp.id r.new_sender_id r.original created in
    let credited = post_side credit stamp.id r.new_receiver_id r.original debited in
    let done = mark_success stamp.id stamp.now credited in
    record done { transactions = update id (λ t. record t { status = reversed }) done.transactions }

unfoldable pub reverse_transaction : (Db → Db) → Stamp → ℕ → ℕ → Action ℕ
unfolding reversal_checks reversal_writes
reverse_transaction others stamp admin id =
    try_except
      (do
        wait others
        plan ← check (reversal_checks id)
        modify (reversal_writes stamp id admin plan)
        commit
        send (audit admin admin_transaction_reversed id ∷ [])
        pure stamp.id)
      raise
