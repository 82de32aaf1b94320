-- ===== src/Ledger/Reconciliation.antt =====
-- Every balance change is in the ledger: the balance of an account is the sum of its entries.
use online_banking_system.Prelude.{
  ℕ, ◌≡◌, none, some, List, [], ◌∷◌, ◌++◌, arith, ◌==◌, if◌then◌else◌, Option-cases, inl, inr,
}
use online_banking_system.Prelude.Int.{pos, ◌+ℤ◌, signed_laws}
use online_banking_system.Table.{lookup, lookup-update}
use online_banking_system.Db.{Account, LedgerEntry, LedgerEntryType, debit, credit, Db}
use online_banking_system.Ledger.{shift_balance, posting_entry, write_posting, post, signed, net}

net-append :
    (a : ℕ) (e : LedgerEntry) (es : List LedgerEntry)
    → net a (es ++ e ∷ [])
      ≡ (if e.account_id == a then net a es +ℤ signed e.entry_type e.amount else net a es)
unfolding net
net-append a e [] = grind (arith, signed_laws)
net-append a e (x ∷ es) = grind (arith, signed_laws, net-append a e es)

-- The balance of every account is the sum of its ledger entries, and no other id has entries to
-- sum up.
pub record IsReconciled (db : Db) : Type 0 where
  pub at : (id : ℕ) (a : Account) → lookup id db.accounts ≡ some a → a.balance ≡ net id db.ledger
  pub unused : (id : ℕ) → lookup id db.accounts ≡ none → net id db.ledger ≡ pos 0

pub shift_balance-signed :
    (kind : LedgerEntryType) (n : ℕ) (a : Account)
    → (shift_balance kind n a).balance ≡ a.balance +ℤ signed kind n
unfolding shift_balance
shift_balance-signed debit n a = grind (arith, signed_laws)
shift_balance-signed credit n a = grind (arith, signed_laws)

-- A posting to any account, known or not, keeps the ledger and the balances reconciled.
pub post-IsReconciled :
    (kind : LedgerEntryType) (tx id n c : ℕ) (db : Db)
    → IsReconciled db
    → IsReconciled (post kind tx id n c db)
unfolding post write_posting posting_entry
post-IsReconciled kind tx id n c db h = elim (Option-cases (lookup id db.accounts)) [
  | inl missing ↦ rw missing h
  | inr (a, found) ↦ rw found (record {
    at = λ j b e. ground (
      arith,
      lookup-update j id (shift_balance kind n) db.accounts,
      shift_balance-signed kind n a,
      net-append j (posting_entry kind tx id n c a) db.ledger,
      h.at j b,
      h.at id a,
    );
    unused = λ j e. ground (
      arith,
      lookup-update j id (shift_balance kind n) db.accounts,
      found,
      net-append j (posting_entry kind tx id n c a) db.ledger,
      h.unused j,
      Option-cases (lookup j db.accounts),
    );
  })
]
