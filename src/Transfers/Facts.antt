-- ===== src/Transfers/Facts.antt =====
-- The facts that the checks of _execute_locked_transfer under lock establish.
use online_banking_system.Prelude.{ℕ, ◌≡◌, true, some, inl, inr, Option-cases, arith}
use online_banking_system.Prelude.Int.{pos, ◌≤ℤ◌}
use online_banking_system.Table.{lookup}
use online_banking_system.Db.{Transaction, is_active, is_pending, Db}
use online_banking_system.Session.Check.{ok}
use online_banking_system.Transfers.Locked.{
  Settlement, credit_amount_of, locked_accounts, locked_checks,
}

-- A transfer that passes the checks under lock: what is known of its row and its accounts.
pub record IsLocked (id : ℕ) (db : Db) (t : Settlement) (row : Transaction) : Type 0 where
  pub found : lookup id db.transactions ≡ some row
  pub waiting : is_pending row.status ≡ true
  pub from : row.sender_account_id ≡ some t.sender_id
  pub to : row.receiver_account_id ≡ some t.receiver_id
  pub debited : t.amount ≡ row.amount
  pub credited : t.credit_amount ≡ credit_amount_of row
  pub sender : lookup t.sender_id db.accounts ≡ some t.sender
  pub receiver : lookup t.receiver_id db.accounts ≡ some t.receiver
  pub sender_active : is_active t.sender.status ≡ true
  pub receiver_active : is_active t.receiver.status ≡ true
  pub covered : pos t.amount ≤ℤ t.sender.balance

locked_accounts-facts :
    (id : ℕ) (db : Db) (t : Settlement) (row : Transaction)
    → lookup id db.transactions ≡ some row
    → is_pending row.status ≡ true
    → locked_accounts db row ≡ ok t
    → IsLocked id db t row
unfolding locked_accounts
locked_accounts-facts id db t row found waiting passed = ground arith

pub locked_checks-facts :
    (id : ℕ) (db : Db) (t : Settlement)
    → locked_checks id db ≡ ok t
    → (row : Transaction) × IsLocked id db t row
unfolding locked_checks
locked_checks-facts id db t passed = elim (Option-cases (lookup id db.transactions)) [
  | inl gone ↦ absurd (ground arith)
  | inr (row, found) ↦ (row, locked_accounts-facts id db t row found (ground arith) (ground arith))
]
