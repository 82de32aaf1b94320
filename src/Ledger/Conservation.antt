-- ===== src/Ledger/Conservation.antt =====
-- The money held in each currency, under postings.
use online_banking_system.Prelude.{ℕ, ◌≡◌, refl, some, [], ◌∷◌, arith, ◌==◌, if◌then◌else◌}
use online_banking_system.Prelude.Int.{ℤ, pos, ◌+ℤ◌, signed_laws}
use online_banking_system.Table.{Table, lookup, update}
use online_banking_system.Db.{Account, LedgerEntryType, debit, credit, Db}
use online_banking_system.Ledger.{shift_balance, post, write_posting, signed}
use online_banking_system.Ledger.Reconciliation.{shift_balance-signed}

-- The sum of the balances in a currency.
pub total : ℕ → Table Account → ℤ
total c [] = pos 0
total c ((_, a) ∷ t) = if a.currency == c then a.balance +ℤ total c t else total c t

shift-currency :
    (kind : LedgerEntryType) (n : ℕ) (a : Account) → (shift_balance kind n a).currency ≡ a.currency
unfolding shift_balance
shift-currency debit n a = refl
shift-currency credit n a = refl

total-update :
    (kind : LedgerEntryType) (n c id : ℕ) (a : Account) (t : Table Account)
    → lookup id t ≡ some a
    → total c (update id (shift_balance kind n) t)
      ≡ (if a.currency == c then total c t +ℤ signed kind n else total c t)
unfolding total update
total-update kind n c id a [] found = ground arith
total-update kind n c id a ((j, v) ∷ t) found = grind (
  arith,
  signed_laws,
  total-update kind n c id a t,
  shift-currency kind n v,
  shift_balance-signed kind n v,
)

-- A posting changes the total of its account's currency by its signed amount, and no other.
pub total-post :
    (kind : LedgerEntryType) (tx id n cur c : ℕ) (db : Db) (a : Account)
    → lookup id db.accounts ≡ some a
    → total c (post kind tx id n cur db).accounts
      ≡ (if a.currency == c then total c db.accounts +ℤ signed kind n else total c db.accounts)
unfolding post write_posting
total-post kind tx id n cur c db a found = rw found (total-update kind n c id a db.accounts found)
