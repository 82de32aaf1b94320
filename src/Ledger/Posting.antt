-- ===== src/Ledger/Posting.antt =====
-- What a posting changes, and when the constraints accept it.
use online_banking_system.Prelude.{
  ℕ, ◌<◌, ◌≡◌, true, false, ◌&&◌, ◌||◌, some, List, [], ◌∷◌, ◌++◌, arith, ◌==◌, if◌then◌else◌,
  Option-cases, inl, inr,
}
use online_banking_system.Prelude.Int.{pos, ◌≤ℤ◌, +ℤ_parts, -ℤ_parts}
use online_banking_system.Table.{
  lookup, apply_some, lookup-update, all_rows, all_rows-update, all_rows-lookup,
}
use online_banking_system.Db.{Account, LedgerEntry, LedgerEntryType, debit, credit, Db}
use online_banking_system.Db.Constraints.{account_check, same_type, slot_taken, ledger_check}
use online_banking_system.Ledger.{shift_balance, posting_entry, write_posting, post}

-- The account that is posted to is shifted; every other account is as before.
pub lookup-post :
    (j : ℕ) (kind : LedgerEntryType) (tx id n c : ℕ) (db : Db)
    → lookup j (post kind tx id n c db).accounts ≡ (
        if id == j
        then apply_some (shift_balance kind n) (lookup j db.accounts)
        else lookup j db.accounts)
unfolding post write_posting
lookup-post j kind tx id n c db = elim (Option-cases (lookup id db.accounts)) [
  | inl missing ↦ rw missing (ground arith)
  | inr (a, found) ↦ rw found (lookup-update j id (shift_balance kind n) db.accounts)
]

pub transactions-post :
    (kind : LedgerEntryType) (tx id n c : ℕ) (db : Db)
    → (post kind tx id n c db).transactions ≡ db.transactions
unfolding post write_posting
transactions-post kind tx id n c db = ground arith

pub scheduled_payments-post :
    (kind : LedgerEntryType) (tx id n c : ℕ) (db : Db)
    → (post kind tx id n c db).scheduled_payments ≡ db.scheduled_payments
unfolding post write_posting
scheduled_payments-post kind tx id n c db = ground arith

pub users-post :
    (kind : LedgerEntryType) (tx id n c : ℕ) (db : Db) → (post kind tx id n c db).users ≡ db.users
unfolding post write_posting
users-post kind tx id n c db = ground arith

pub customers-post :
    (kind : LedgerEntryType) (tx id n c : ℕ) (db : Db)
    → (post kind tx id n c db).customers ≡ db.customers
unfolding post write_posting
customers-post kind tx id n c db = ground arith

pub ledger-post :
    (kind : LedgerEntryType) (tx id n c : ℕ) (db : Db) (a : Account)
    → lookup id db.accounts ≡ some a
    → (post kind tx id n c db).ledger ≡ db.ledger ++ posting_entry kind tx id n c a ∷ []
unfolding post write_posting
ledger-post kind tx id n c db a found = rw found

pub slot_taken-append :
    (t : ℕ) (k : LedgerEntryType) (es : List LedgerEntry) (e : LedgerEntry)
    → slot_taken t k (es ++ e ∷ [])
      ≡ (slot_taken t k es || (e.transaction_id == t && same_type e.entry_type k))
unfolding slot_taken
slot_taken-append t k [] e = ground arith
slot_taken-append t k (x ∷ es) e = ground (arith, slot_taken-append t k es e)

-- An entry for a free slot with a positive amount is accepted.
pub ledger_check-append :
    (es : List LedgerEntry) (e : LedgerEntry)
    → ledger_check es ≡ true
    → slot_taken e.transaction_id e.entry_type es ≡ false
    → 0 < e.amount
    → ledger_check (es ++ e ∷ []) ≡ true
unfolding ledger_check slot_taken
ledger_check-append [] e h free p = ground arith
ledger_check-append (x ∷ es) e h free p =
    ground (arith, ledger_check-append es e, slot_taken-append x.transaction_id x.entry_type es e)

-- The balance covers the posting: a credit always.
abbrev pub Covers : LedgerEntryType → ℕ → Account → Type 0
Covers debit n a = pos n ≤ℤ a.balance
Covers credit n a = Unit

account_check-shift :
    (kind : LedgerEntryType) (n : ℕ) (a : Account)
    → Covers kind n a
    → account_check a ≡ true
    → account_check (shift_balance kind n a) ≡ true
unfolding shift_balance
account_check-shift debit n a covers h = ground (arith, -ℤ_parts a.balance (pos n))
account_check-shift credit n a covers h = ground (arith, +ℤ_parts a.balance (pos n))

-- A posting that the balance covers leaves no balance negative.
pub accounts-post :
    (kind : LedgerEntryType) (tx id n c : ℕ) (db : Db) (a : Account)
    → lookup id db.accounts ≡ some a
    → Covers kind n a
    → all_rows account_check db.accounts ≡ true
    → all_rows account_check (post kind tx id n c db).accounts ≡ true
unfolding post write_posting
accounts-post kind tx id n c db a found covers h = rw found (
    all_rows-update account_check id (shift_balance kind n) db.accounts h (λ v e.
      let same : a ≡ v = cc in
      rw (← same) (
        account_check-shift kind n a covers
          (all_rows-lookup account_check id a db.accounts h found))))
