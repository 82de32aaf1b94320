-- ===== src/Transfers/Execution.antt =====
-- _execute_locked_transfer and execute_scheduled_transfer. `others` is what other requests commit at
-- the moments where this one holds no lock on the transaction's row.
use online_banking_system.Prelude.{ℕ, Bool, true, false, Option, none, some, [], ◌∷◌, if◌then◌else◌}
use online_banking_system.Table.{lookup, update}
use online_banking_system.Db.{
  Error, transaction_already_processed, assertion_failed, is_pending, rule, Transaction, debit,
  credit, Db, Customer,
}
use online_banking_system.Session.Actions.{
  Action, ◌>>=◌, ◌>>◌, pure, raise, check, modify, commit, send, wait, try_except,
}
use online_banking_system.Session.Check.{ok}
use online_banking_system.Session.Messages.{
  audit, scheduled_transfer_completed, notify, Channel, Template,
}
use online_banking_system.Ledger.{post}
use online_banking_system.Transactions.{Stamp, create, mark_failed, mark_success, mark_verified}
use online_banking_system.Transfers.Locked.{Settlement, locked_checks}
use online_banking_system.Transfers.Validation.{TransferRequest, validate_transfer}

-- `if confirmation is not None: otp_verified = True; mark_verified(confirmation)`
abbrev pub verified : Bool → Transaction → Transaction
verified true t = record t { otp_verified = true }
verified false t = t

unfoldable pub mark_otp_verified : Bool → ℕ → ℕ → Db → Db
unfolding mark_verified
mark_otp_verified true id now db =
    mark_verified id now (record db { transactions = update id (verified true) db.transactions })
mark_otp_verified false id now db = db

-- The balances, the two ledger entries and the status.
unfoldable pub settle : ℕ → ℕ → Bool → Settlement → Db → Db
unfolding mark_success mark_otp_verified
settle id now with_confirmation t db =
    let debited = post debit id t.sender_id t.amount t.sender.currency db in
    let posted = post credit id t.receiver_id t.credit_amount t.receiver.currency debited in
    mark_otp_verified with_confirmation id now (mark_success id now posted)

-- While it waits for the locks; after the rollback of a failure, which releases them; and after the
-- transaction has been reloaded without a lock.
pub data Moment : Type 0 where
  at_lock after_rollback after_reload : Moment

abbrev pub Others : Type 0
Others = Moment → Db → Db

-- The rows when a failed execution reloads the transaction, and when it writes.
abbrev pub at_reload : Others → Db → Db
at_reload others db = others after_rollback (others at_lock db)

abbrev pub at_write : Others → Db → Db
at_write others db = others after_reload (at_reload others db)

unfoldable pub locked_body : Others → ℕ → ℕ → Bool → Action ℕ
locked_body others id now with_confirmation = do
  wait (others at_lock)
  settlement ← check (locked_checks id)
  modify (settle id now with_confirmation settlement)
  commit
  pure id

-- The handler after the rollback, with the transaction reloaded: it is failed if it was pending.
-- `later` is what others commit between the reload and the write.
unfoldable pub resolve : (Db → Db) → ℕ → ℕ → Error → Option Transaction → Action ℕ
unfolding mark_failed
resolve later id now e none = raise assertion_failed
resolve later id now e (some t) =
    if is_pending t.status
    then (do wait later; modify (mark_failed id (rule e) now); commit; raise e)
    else raise transaction_already_processed

unfoldable pub fail_or_report : Others → ℕ → ℕ → Error → Action ℕ
unfolding resolve
fail_or_report others id now e = do
  wait (others after_rollback)
  reloaded ← check (λ db. ok (lookup id db.transactions))
  resolve (others after_reload) id now e reloaded

unfoldable pub execute_locked_transfer : Others → ℕ → ℕ → Bool → Action ℕ
unfolding locked_body fail_or_report
execute_locked_transfer others id now with_confirmation =
    try_except (locked_body others id now with_confirmation) (fail_or_report others id now)

unfoldable pub execute_scheduled_transfer : Others → Stamp → Customer → TransferRequest → Action ℕ
unfolding execute_locked_transfer validate_transfer create
execute_scheduled_transfer others stamp customer payload = do
  new ← check (λ db. validate_transfer db customer payload stamp.now)
  modify (create stamp new)
  execute_locked_transfer others stamp.id stamp.now false
  send (
      audit customer.user_id scheduled_transfer_completed stamp.id
      ∷ notify customer.user_id Channel.sms Template.transfer_completed stamp.id
      ∷ [])
  pure stamp.id
