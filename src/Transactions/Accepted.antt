-- ===== src/Transactions/Accepted.antt =====
-- Writes to the transactions table that its CHECK constraints accept.
use online_banking_system.Prelude.{ℕ, ◌≡◌, true, arith}
use online_banking_system.Table.{Table, insert, update, all_rows, all_rows-update, all_rows-lookup}
use online_banking_system.Db.{Transaction, Reason, Db}
use online_banking_system.Db.Constraints.{
  transaction_check, meets_constraints, ledger_check, account_check, scheduled_payment_check,
  unique_emails, unique_national_ids,
}
use online_banking_system.Transactions.Repository.{success_row, failed_row}

-- The parts of `meets_constraints`.
pub record Meets (db : Db) : Type 0 where
  pub accounts : all_rows account_check db.accounts ≡ true
  pub transactions : all_rows transaction_check db.transactions ≡ true
  pub ledger : ledger_check db.ledger ≡ true
  pub schedules : all_rows scheduled_payment_check db.scheduled_payments ≡ true
  pub emails : unique_emails db.users ≡ true
  pub national_ids : unique_national_ids db.customers ≡ true

pub Meets-sound : {db : Db} → Meets db → meets_constraints db ≡ true
unfolding meets_constraints
Meets-sound h = ground arith

pub Meets-complete : (db : Db) → meets_constraints db ≡ true → Meets db
unfolding meets_constraints
Meets-complete db h = record {
  accounts = ground arith;
  transactions = ground arith;
  ledger = ground arith;
  schedules = ground arith;
  emails = ground arith;
  national_ids = ground arith;
}

module _ (t : Table Transaction) (h : all_rows transaction_check t ≡ true) where
  -- Changing the status keeps the constraints.
  pub mark_success-accepted :
      (id now : ℕ) → all_rows transaction_check (update id (success_row now) t) ≡ true
  unfolding success_row transaction_check
  mark_success-accepted id now =
      all_rows-update transaction_check id (success_row now) t h
        (λ v e. all_rows-lookup transaction_check id v t h e)

  pub mark_failed-accepted :
      (id : ℕ) (reason : Reason) (now : ℕ)
      → all_rows transaction_check (update id (failed_row reason now) t) ≡ true
  unfolding failed_row transaction_check
  mark_failed-accepted id reason now =
      all_rows-update transaction_check id (failed_row reason now) t h
        (λ v e. all_rows-lookup transaction_check id v t h e)

  pub insert-accepted :
      (id : ℕ) (row : Transaction)
      → transaction_check row ≡ true
      → all_rows transaction_check (insert id row t) ≡ true
  unfolding all_rows
  insert-accepted id row r = ground arith
