-- ===== src/Teller/Movement.antt =====
-- One-sided movements of money: a deposit, a withdrawal, a card payment.
use online_banking_system.Prelude.{ℕ, ◌<◌, ◌≡◌, ◌≢◌, ◌∙◌, true, false, some, [], ◌∷◌, ◌++◌, arith}
use online_banking_system.Table.{lookup, lookup-update}
use online_banking_system.Db.{Account, LedgerEntryType, Db}
use online_banking_system.Db.Constraints.{slot_taken, transaction_check, meets_constraints}
use online_banking_system.Ledger.{shift_balance, posting_entry, post}
use online_banking_system.Ledger.Posting.{
  Covers, lookup-post, transactions-post, scheduled_payments-post, users-post, customers-post,
  ledger-post, ledger_check-append, accounts-post,
}
use online_banking_system.Transactions.{
  Stamp, NewTransaction, new_row, create, success_row, mark_success,
}
use online_banking_system.Transactions.Accepted.{
  Meets-sound, Meets-complete, insert-accepted, mark_success-accepted,
}

-- From `before` to `after` one new SUCCESS transaction has moved money on one account, with one
-- ledger entry for it; every other account and
-- transaction is as it was.
pub record Moved (kind : LedgerEntryType) (stamp : Stamp) (row : NewTransaction) (id : ℕ)
    (a : Account) (before after : Db) : Type 0 where
  pub account : lookup id after.accounts ≡ some (shift_balance kind row.amount a)
  pub elsewhere : (j : ℕ) → j ≢ id → lookup j after.accounts ≡ lookup j before.accounts
  pub entry :
      after.ledger ≡ before.ledger ++ posting_entry kind stamp.id id row.amount row.currency a ∷ []
  pub transaction :
      lookup stamp.id after.transactions ≡ some (success_row stamp.now (new_row stamp row))
  pub untouched :
      (j : ℕ) → j ≢ stamp.id → lookup j after.transactions ≡ lookup j before.transactions

-- The writes of a one-sided movement, as deposit, withdraw and pay_with_card make them.
abbrev pub movement : LedgerEntryType → Stamp → NewTransaction → ℕ → Db → Db
movement kind stamp row id db =
    mark_success stamp.id stamp.now
      (post kind stamp.id id row.amount row.currency (create stamp row db))

module _ (kind : LedgerEntryType) (stamp : Stamp) (row : NewTransaction) (id : ℕ) (a : Account)
    (db : Db) (found : lookup id db.accounts ≡ some a) where
  pub movement-Moved : Moved kind stamp row id a db (movement kind stamp row id db)
  unfolding create mark_success
  movement-Moved = record {
    account =
        lookup-post id kind stamp.id id row.amount row.currency (create stamp row db)
        ∙ ground (arith);
    elsewhere = λ j ne.
        lookup-post j kind stamp.id id row.amount row.currency (create stamp row db) ∙ ground arith;
    entry = ledger-post kind stamp.id id row.amount row.currency (create stamp row db) a found;
    transaction =
        rw (transactions-post kind stamp.id id row.amount row.currency (create stamp row db))
          (lookup-update stamp.id stamp.id (success_row stamp.now) _ ∙ ground arith);
    untouched = λ j other.
        rw (transactions-post kind stamp.id id row.amount row.currency (create stamp row db))
          (lookup-update j stamp.id (success_row stamp.now) _ ∙ ground arith);
  }

  -- The constraints accept a movement of a positive amount that the balance covers.
  pub movement-accepted :
      Covers kind row.amount a
      → 0 < row.amount
      → transaction_check (new_row stamp row) ≡ true
      → slot_taken stamp.id kind db.ledger ≡ false
      → meets_constraints db ≡ true
      → meets_constraints (movement kind stamp row id db) ≡ true
  unfolding create mark_success posting_entry
  movement-accepted covers positive well_formed free met =
      let m = Meets-complete db met in
      let created = create stamp row db in
      Meets-sound (record {
        accounts =
            accounts-post kind stamp.id id row.amount row.currency created a found covers
              m.accounts;
        transactions = rw (transactions-post kind stamp.id id row.amount row.currency created) (
            mark_success-accepted created.transactions
              (insert-accepted db.transactions m.transactions stamp.id (new_row stamp row)
                well_formed)
              stamp.id stamp.now);
        schedules =
            rw (scheduled_payments-post kind stamp.id id row.amount row.currency created)
              m.schedules;
        emails = rw (users-post kind stamp.id id row.amount row.currency created) m.emails;
        national_ids =
            rw (customers-post kind stamp.id id row.amount row.currency created) m.national_ids;
        ledger = rw (ledger-post kind stamp.id id row.amount row.currency created a found) (
            ledger_check-append db.ledger (posting_entry kind stamp.id id row.amount row.currency a)
              m.ledger free positive);
      })
