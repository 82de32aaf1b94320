-- ===== src/Ledger.antt =====
-- Postings: a balance change with its ledger entry, as deposit, withdraw, pay_with_card,
-- reverse_transaction and _execute_locked_transfer write them, and what the ledger says of an
-- account.
pub mod Reconciliation
pub mod Posting
pub mod Conservation
use online_banking_system.Prelude.{
  ℕ, ◌+◌, Bool, Option, none, some, List, [], ◌∷◌, ◌++◌, ◌==◌, if◌then◌else◌,
}
use online_banking_system.Prelude.Int.{ℤ, pos, ◌+ℤ◌, ◌-ℤ◌}
use online_banking_system.Table.{lookup, update}
use online_banking_system.Db.{Account, LedgerEntry, LedgerEntryType, debit, credit, Db}

-- `account.balance = account.balance - amount; account.version += 1`, and the same with `+`
unfoldable pub shift_balance : LedgerEntryType → ℕ → Account → Account
shift_balance debit amount a = record a {
  balance = a.balance -ℤ pos amount;
  version = a.version + 1;
}
shift_balance credit amount a = record a {
  balance = a.balance +ℤ pos amount;
  version = a.version + 1;
}

-- LedgerEntryRepository.create, with the balances before and after
unfoldable pub posting_entry : LedgerEntryType → ℕ → ℕ → ℕ → ℕ → Account → LedgerEntry
posting_entry kind transaction_id account_id amount currency a = record {
  transaction_id = transaction_id;
  account_id = account_id;
  entry_type = kind;
  amount = amount;
  currency = currency;
  balance_before = a.balance;
  balance_after = (shift_balance kind amount a).balance;
}

unfoldable pub write_posting : LedgerEntryType → ℕ → ℕ → ℕ → ℕ → Db → Option Account → Db
write_posting kind transaction_id account_id amount currency db none = db
write_posting kind transaction_id account_id amount currency db (some a) = record db {
  accounts = update account_id (shift_balance kind amount) db.accounts;
  ledger = db.ledger ++ posting_entry kind transaction_id account_id amount currency a ∷ [];
}

-- The callers hold a lock on the account, so it is there.
unfoldable pub post : LedgerEntryType → ℕ → ℕ → ℕ → ℕ → Db → Db
unfolding write_posting
post kind transaction_id account_id amount currency db =
    write_posting kind transaction_id account_id amount currency db (lookup account_id db.accounts)

abbrev pub signed : LedgerEntryType → ℕ → ℤ
signed debit n = pos 0 -ℤ pos n
signed credit n = pos n

-- The sum of an account's credits less its debits.
unfoldable pub net : ℕ → List LedgerEntry → ℤ
net account_id [] = pos 0
net account_id (e ∷ es) =
    if e.account_id == account_id
    then signed e.entry_type e.amount +ℤ net account_id es
    else net account_id es
